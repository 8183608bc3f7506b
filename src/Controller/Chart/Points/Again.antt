-- ===== src/Controller/Chart/Points/Again.antt =====
-- A second `onTimerUpdate` of QApplicationWindowController.cpp, with no message in between, adds nothing
-- to the chart.
use aleakd.Base.{
  ℕ, zero, suc, ◌+◌, ◌-◌, ◌≤◌, ◌<◌, ◌≡◌, ◌==◌, refl, sym, ap, subst, ◌∙◌, Bool, true, false, List,
  [], ◌∷◌, ◌++◌, append-nil, if◌then◌else◌, length, Bool-cases, ne→==, inl, inr, arith,
}
use aleakd.Model.Usage.{MemoryUsage, EntryList, new_memory_usage, contains, count, value}
use aleakd.Controller.State.{Controller}
use aleakd.Controller.Chart.{
  visit, collect, rounds_to, start_time, collected, show_collected, update_chart,
}
use aleakd.Controller.Chart.Points.{RisingKeys, usage_of, last_key, is_new, new_points}
use aleakd.Controller.Chart.Points.Collected.{new_points-RisingKeys}
use aleakd.Controller.Chart.Points.Due.{
  points_due, collected-points_due, RisingKeys-tight, update_chart-points,
}

abbrev cons_if : Bool → ℕ × ℕ → List (ℕ × ℕ) → List (ℕ × ℕ)
cons_if b p ps = if b then p ∷ ps else ps

module _ (u : MemoryUsage) where
  -- The value of the last second that is known.
  unfoldable last_size : ℕ → ℕ → ℕ → ℕ
  last_size zero i size = size
  last_size (suc rounds) i size =
      last_size rounds (suc i) (if contains u i then value u i else size)

  visit-size :
      (time last i size : ℕ) (fresh : MemoryUsage)
      → (visit u time last i (fresh, size)).1 ≡ (if contains u i then value u i else size)
  unfolding visit
  visit-size time last i size fresh = elim (Bool-cases (contains u i)) [
    | inl e ↦ rw e refl
    | inr e ↦ rw e refl
  ]

  collect-size :
      (time last rounds i size : ℕ) (fresh : MemoryUsage)
      → (collect u time last rounds i (fresh, size)).1 ≡ last_size rounds i size
  unfolding collect last_size
  collect-size time last zero i size fresh = refl
  collect-size time last (suc rounds) i size fresh =
      let (fresh', size') = visit u time last i (fresh, size) in
      collect-size time last rounds (suc i) size' fresh'
      ∙ ap (last_size rounds (suc i)) (visit-size time last i size fresh)

  is_new-later : (time last i : ℕ) → time < i → contains u i ≡ true → is_new u time last i ≡ true
  unfolding is_new
  is_new-later time last i later e = ground arith

  is_new-unknown : (time last i : ℕ) → contains u i ≡ false → is_new u time last i ≡ false
  unfolding is_new
  is_new-unknown time last i e = rw e refl

  -- Behind the second shown last, no new points means that no second is known.
  quiet :
      (time last time' last' rounds i size : ℕ)
      → time < i
      → new_points u time last rounds i ≡ []
      → (new_points u time' last' rounds i ≡ []) × (last_size rounds i size ≡ size)
  unfolding new_points last_size
  quiet time last time' last' zero i size later none = (refl, refl)
  quiet time last time' last' (suc rounds) i size later none = elim (Bool-cases (contains u i)) [
    | inl e ↦
        let new : is_new u time last i ≡ true = is_new-later time last i later e in
        absurd (
          not_nil (
            ap (λ b. cons_if b (i, value u i) (new_points u time last rounds (suc i))) (sym new)
            ∙ none))
    | inr e ↦
        let next : new_points u time last rounds (suc i) ≡ [] =
          ap (λ b. cons_if b (i, value u i) (new_points u time last rounds (suc i)))
            (sym (is_new-unknown time last i e))
          ∙ none in
        let (nothing, same) = quiet time last time' last' rounds (suc i) size (omega arith) next in
        rw (is_new-unknown time' last' i e) (nothing, rw e same)
  ]
    where
      not_nil : {p : ℕ × ℕ} {ps : List (ℕ × ℕ)} → p ∷ ps ≡ [] → ⊥
      not_nil e = cc

  -- From the point shown last, with its value, there is nothing new up to `end`.
  abbrev AgainHolds : ℕ → ℕ → ℕ → Type 0
  AgainHolds time last end = new_points u time last (end - time) time ≡ []

  is_new-shown : (i : ℕ) → is_new u i (value u i) i ≡ false
  unfolding is_new
  is_new-shown i = ground arith

  is_new-known : (time last i : ℕ) → is_new u time last i ≡ true → contains u i ≡ true
  unfolding is_new
  is_new-known time last i e = ground arith

  -- The last of the points is the one of second `i`.
  again-here :
      (time last rounds i size : ℕ)
      → time ≤ i
      → contains u i ≡ true
      → new_points u time last rounds (suc i) ≡ []
      → AgainHolds i (last_size (suc rounds) i size) (i + suc rounds)
  unfolding new_points last_size
  again-here time last rounds i size le known none =
      let left : i + suc rounds - i ≡ suc rounds = omega arith in
      let (nothing, same) =
        quiet time last i (value u i) rounds (suc i) (value u i) (omega arith) none in
      let shown : last_size (suc rounds) i size ≡ value u i =
        ap (λ b. last_size rounds (suc i) (if b then value u i else size)) known ∙ same in
      ap (λ v. new_points u i v (i + suc rounds - i) i) shown
      ∙ ap (λ n. new_points u i (value u i) n i) left
      ∙ ap (λ b. cons_if b (i, value u i) (new_points u i (value u i) rounds (suc i)))
          (is_new-shown i)
      ∙ nothing

  again-point :
      (time last rounds i size d : ℕ) (b : Bool) (ps : List (ℕ × ℕ))
      → time ≤ i
      → is_new u time last i ≡ b
      → cons_if b (i, value u i) (new_points u time last rounds (suc i)) ≡ ps
      → 0 < length ps
      → ((d' size' : ℕ) (qs : List (ℕ × ℕ))
          → new_points u time last rounds (suc i) ≡ qs
          → 0 < length qs
          → AgainHolds (last_key d' qs) (last_size rounds (suc i) size') (suc i + rounds))
      → AgainHolds (last_key d ps) (last_size (suc rounds) i size) (i + suc rounds)
  unfolding last_size
  again-point time last rounds i size d b [] le new e some ih = absurd (omega arith)
  again-point time last rounds i size d false (p ∷ ps) le new e some ih =
      let sum : suc i + rounds ≡ i + suc rounds = omega arith in
      subst (AgainHolds _ _) sum (ih d _ (p ∷ ps) e some)
  again-point time last rounds i size d true ((k, v) ∷ []) le new e some ih =
      let key : i ≡ k = cc in
      subst (λ t. AgainHolds t (last_size (suc rounds) i size) (i + suc rounds)) key
        (again-here time last rounds i size le (is_new-known time last i new) (cc))
  again-point time last rounds i size d true ((k, v) ∷ q ∷ qs) le new e some ih =
      let sum : suc i + rounds ≡ i + suc rounds = omega arith in
      let more : 0 < length (q ∷ qs) = omega arith in
      let rest : new_points u time last rounds (suc i) ≡ q ∷ qs = cc in
      subst (AgainHolds _ _) sum (ih k _ (q ∷ qs) rest more)

  again-from :
      (time last rounds i size d : ℕ) (ps : List (ℕ × ℕ))
      → time ≤ i
      → new_points u time last rounds i ≡ ps
      → 0 < length ps
      → AgainHolds (last_key d ps) (last_size rounds i size) (i + rounds)
  unfolding new_points
  again-from time last zero i size d [] le e some = absurd (omega arith)
  again-from time last zero i size d (p ∷ ps) le e some = cc
  again-from time last (suc rounds) i size d ps le e some =
      again-point time last rounds i size d (is_new u time last i) ps le refl e some
        λ d' size' qs e' some'.
          again-from time last rounds (suc i) size' d' qs (omega arith) e' some'

if_cons :
    (b : Bool) (xs : List (ℕ × ℕ)) {p : ℕ × ℕ} {ps : List (ℕ × ℕ)}
    → (if b then [] else xs) ≡ p ∷ ps
    → (b ≡ false) × (xs ≡ p ∷ ps)
if_cons true xs e = cc
if_cons false xs e = (refl, e)

some_rounds :
    (u : MemoryUsage) (time last rounds i : ℕ) {p : ℕ × ℕ} {ps : List (ℕ × ℕ)}
    → new_points u time last rounds i ≡ p ∷ ps
    → 0 < rounds
unfolding new_points
some_rounds u time last zero i e = cc
some_rounds u time last (suc rounds) i e = omega arith

pub time-le-start :
    (c : Controller) → (start_time c == 0) ≡ false → c.last_update_time ≤ start_time c
time-le-start c e = ground arith

-- What was collected, where there is a second to start from.
collected-size :
    (c : Controller)
    → (start_time c == 0) ≡ false
    → (collected c).1 ≡ (
        let u = c.global_stats.memory_usage in
        last_size u (rounds_to (start_time c) u.last_time) (start_time c) 0)
unfolding collected
collected-size c e = rw e (
    collect-size c.global_stats.memory_usage c.last_update_time c.last_update_value _ (start_time c)
      0 new_memory_usage)

-- Nothing is due behind the last point that was shown.
nothing_left :
    (c : Controller) (k v : ℕ) (es : EntryList)
    → points_due c ≡ (k, v) ∷ es
    → let u = c.global_stats.memory_usage in
      let last = last_key k es in
      (0 < last) × (new_points u last (collected c).1 (rounds_to last u.last_time) last ≡ [])
unfolding points_due
nothing_left c k v es e =
    let u = c.global_stats.memory_usage in
    let start = start_time c in
    let rounds = rounds_to start u.last_time in
    let (from, due) =
      if_cons (start == 0) (new_points u c.last_update_time c.last_update_value rounds start) e in
    let more : 0 < rounds = some_rounds u c.last_update_time c.last_update_value rounds start due in
    let end : start + rounds ≡ suc u.last_time = omega arith in
    let rising : RisingKeys start (start + rounds) ((k, v) ∷ es) =
      subst (RisingKeys start (start + rounds)) due
        (new_points-RisingKeys u c.last_update_time c.last_update_value rounds start) in
    let above : k ≤ last_key k es = (RisingKeys-tight k (start + rounds) es rising.2).0 in
    let held =
      again-from u c.last_update_time c.last_update_value rounds start 0 0 ((k, v) ∷ es)
        (time-le-start c from) due (omega arith) in
    let T = last_key k es in
    (
      positive start k T from rising.0 above,
      ap (λ size. new_points u T size (suc u.last_time - T) T) (collected-size c from)
          ∙ ap (λ n. new_points u T (last_size u rounds start 0) (n - T) T) (sym end)
          ∙ held,
    )
  where
    positive : (start k last : ℕ) → (start == 0) ≡ false → start ≤ k → k ≤ last → 0 < last
    positive start k last from le le' = ground arith

shown-due :
    (c : Controller) (due : List (ℕ × ℕ))
    → points_due c ≡ due
    → points_due (show_collected (usage_of due, (collected c).1) c) ≡ []
unfolding points_due show_collected count
shown-due c [] e = e
shown-due c ((k, v) ∷ es) e =
    let (some, none) = nothing_left c k v es e in
    let set : (last_key k es == 0) ≡ false = ne→== (last_key k es) 0 (λ e. omega arith) in
    rw (ne→== (length ((k, v) ∷ es)) 0 (λ e. omega arith)) (rw set (rw set none))

-- With no message in between, a second update adds nothing to the chart.
pub update_chart-again :
    (c : Controller) → (update_chart (update_chart c)).line_series ≡ (update_chart c).line_series
unfolding update_chart
update_chart-again c =
    update_chart-points (update_chart c)
    ∙ ap (λ ps. (update_chart c).line_series ++ ps)
        (ap (λ f. points_due (show_collected (f, (collected c).1) c)) (collected-points_due c)
          ∙ shown-due c (points_due c) refl)
    ∙ append-nil (update_chart c).line_series
