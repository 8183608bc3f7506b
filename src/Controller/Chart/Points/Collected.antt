-- ===== src/Controller/Chart/Points/Collected.antt =====
-- The two loops of `onTimerUpdate` of QApplicationWindowController.cpp over a hash add exactly the new
-- points to the chart.
use aleakd.Base.{
  ℕ, zero, suc, ◌+◌, ◌≤◌, ◌<◌, ◌≡◌, refl, sym, ap, subst, ◌∙◌, Bool, true, false, not, ◌&&◌, List,
  [], ◌∷◌, ◌++◌, append_assoc, append-nil, ◌==◌, ne→==, ==→eq, if◌then◌else◌, Bool-cases, inl, inr,
  arith,
}
use aleakd.Model.Usage.{MemoryUsage, EntryList, has_key, value_or, contains, value, update}
use aleakd.Controller.Chart.{visit, collect, append_points}
use aleakd.Controller.Chart.Points.{
  is_new, new_points, RisingKeys, RisingKeys-lower, RisingKeys-append, usage_of, update-above,
}

RisingKeys-higher :
    (lo hi hi' : ℕ) (es : EntryList) → hi ≤ hi' → RisingKeys lo hi es → RisingKeys lo hi' es
RisingKeys-higher lo hi hi' [] le h = tt
RisingKeys-higher lo hi hi' ((k, v) ∷ es) le h =
    (h.0, omega arith, RisingKeys-higher (suc k) hi hi' es le h.2)

module _ (u : MemoryUsage) (time last : ℕ) where
  pub new_points-RisingKeys :
      (rounds i : ℕ) → RisingKeys i (i + rounds) (new_points u time last rounds i)
  unfolding new_points
  new_points-RisingKeys zero i = tt
  new_points-RisingKeys (suc rounds) i =
      let sum : suc i + rounds ≡ i + suc rounds = omega arith in
      let rest : RisingKeys (suc i) (i + suc rounds) (new_points u time last rounds (suc i)) =
        subst (λ n. RisingKeys (suc i) n (new_points u time last rounds (suc i))) sum
          (new_points-RisingKeys rounds (suc i)) in
      elim (Bool-cases (is_new u time last i)) [
        | inl e ↦ rw e (omega arith, omega arith, rest)
        | inr e ↦ rw e (
            RisingKeys-lower (suc i) i _ (new_points u time last rounds (suc i)) (omega arith) rest)
      ]

  visit-fresh :
      (i lo size : ℕ) (es : EntryList)
      → 0 < lo
      → RisingKeys lo i es
      → (visit u time last i (usage_of es, size)).0
        ≡ usage_of (if is_new u time last i then es ++ (i, value u i) ∷ [] else es)
  unfolding visit is_new
  visit-fresh i lo size es pos h =
      tested (contains u i) (i == time) (last == value u i)
        (update-above lo i i (value u i) es pos (omega arith) h)
    where
      tested :
          (a b c : Bool)
          → update (usage_of es) i (value u i) ≡ usage_of (es ++ (i, value u i) ∷ [])
          → (let r : MemoryUsage × ℕ =
                if a
                then (
                  if b
                      then if not c then update (usage_of es) i (value u i) else usage_of es
                      else update (usage_of es) i (value u i),
                  value u i,
                )
                else (usage_of es, size) in
              r.0)
            ≡ usage_of (if a && not (b && c) then es ++ (i, value u i) ∷ [] else es)
      tested false b c e = refl
      tested true false c e = e
      tested true true false e = e
      tested true true true e = refl

  -- The first loop leaves the entries that were there, and the new points behind them.
  pub collect-fresh :
      (rounds i lo size : ℕ) (es : EntryList)
      → 0 < lo
      → lo ≤ i
      → RisingKeys lo i es
      → (collect u time last rounds i (usage_of es, size)).0
        ≡ usage_of (es ++ new_points u time last rounds i)
  unfolding collect new_points
  collect-fresh zero i lo size es pos le h = ap usage_of (sym (append-nil es))
  collect-fresh (suc rounds) i lo size es pos le h =
      let size' = (visit u time last i (usage_of es, size)).1 in
      ap (λ f. (collect u time last rounds (suc i) (f, size')).0) (visit-fresh i lo size es pos h)
      ∙ elim (Bool-cases (is_new u time last i)) [
        | inl e ↦ rw e (
            collect-fresh rounds (suc i) lo size' (es ++ (i, value u i) ∷ []) pos (omega arith)
              (RisingKeys-append lo i i (value u i) es le (omega arith) h)
            ∙ ap usage_of
                (append_assoc es ((i, value u i) ∷ []) (new_points u time last rounds (suc i))))
        | inr e ↦ rw e (
            collect-fresh rounds (suc i) lo size' es pos (omega arith)
              (RisingKeys-higher lo i (suc i) es (omega arith) h))
      ]

has_key-below : (lo hi k : ℕ) (es : EntryList) → k < lo → RisingKeys lo hi es → has_key k es ≡ false
has_key-below lo hi k [] le h = refl
has_key-below lo hi k ((j, v) ∷ es) le h =
    rw (ne→== j k (λ e. omega arith)) (has_key-below (suc j) hi k es (omega arith) h.2)

has_key-head : (k i v : ℕ) (es : EntryList) → (k == i) ≡ true → has_key i ((k, v) ∷ es) ≡ true
has_key-head k i v es e = rw e refl

value_or-head : (k i v : ℕ) (es : EntryList) → (k == i) ≡ true → value_or 0 i ((k, v) ∷ es) ≡ v
value_or-head k i v es e = rw e refl

has_key-skip :
    (k i v : ℕ) (es : EntryList) → (k == i) ≡ false → has_key i ((k, v) ∷ es) ≡ has_key i es
has_key-skip k i v es e = rw e refl

lt_of_ne : (i k : ℕ) → i ≤ k → (k == i) ≡ false → i < k
lt_of_ne i k le e = ground arith

pair-eq : (i k x v : ℕ) → i ≡ k → x ≡ v → ◌≡◌ {A = ℕ × ℕ} (i, x) (k, v)
pair-eq i k x v e f = rw (e, f) refl

RisingKeys-to :
    (lo lo' hi hi' : ℕ) (es : EntryList)
    → lo' ≤ lo
    → hi ≤ hi'
    → RisingKeys lo hi es
    → RisingKeys lo' hi' es
RisingKeys-to lo lo' hi hi' es le le' h =
    RisingKeys-lower lo lo' hi' es le (RisingKeys-higher lo hi hi' es le' h)

-- A hash that holds these entries, as far as keys from `i` on go.
abbrev Agrees : MemoryUsage → ℕ → EntryList → Type 0
Agrees m i es = (j : ℕ) → i ≤ j → (contains m j ≡ has_key j es) × (value m j ≡ value_or 0 j es)

Agrees-tail :
    (m : MemoryUsage) (i k v : ℕ) (es : EntryList)
    → k < i
    → Agrees m i ((k, v) ∷ es)
    → Agrees m i es
Agrees-tail m i k v es less h j le =
    let ne : (k == j) ≡ false = ne→== k j (λ e. omega arith) in
    ((h j le).0 ∙ rw ne refl, (h j le).1 ∙ rw ne refl)

-- The second loop puts the entries into the chart, in the order of their times.
pub append_points-all :
    (m : MemoryUsage) (rounds i : ℕ) (es : EntryList) (series : List (ℕ × ℕ))
    → Agrees m i es
    → RisingKeys i (i + rounds) es
    → append_points m rounds i series ≡ series ++ es
unfolding append_points
append_points-all m zero i [] series h r = sym (append-nil series)
append_points-all m zero i ((k, v) ∷ es) series h r = absurd (omega arith)
append_points-all m (suc rounds) i [] series h r =
    rw ((h i (omega arith)).0)
      (append_points-all m rounds (suc i) [] series (λ j le. h j (omega arith)) tt)
append_points-all m (suc rounds) i ((k, v) ∷ es) series h r = elim (Bool-cases (k == i)) [
  | inl e ↦
      let same : k ≡ i = ==→eq k i e in
      let here : contains m i ≡ true = (h i (omega arith)).0 ∙ has_key-head k i v es e in
      let size : value m i ≡ v = (h i (omega arith)).1 ∙ value_or-head k i v es e in
      rw here (
        append_points-all m rounds (suc i) es (series ++ (i, value m i) ∷ [])
          (Agrees-tail m (suc i) k v es (omega arith) (λ j le. h j (omega arith)))
          (RisingKeys-to (suc k) (suc i) (i + suc rounds) (suc i + rounds) es (omega arith)
            (omega arith) r.2)
        ∙ append_assoc series ((i, value m i) ∷ []) es
        ∙ ap (λ p. series ++ p ∷ es) (pair-eq i k (value m i) v (sym same) size))
  | inr e ↦
      let above : i < k = lt_of_ne i k r.0 e in
      let none : contains m i ≡ false =
        (h i (omega arith)).0
        ∙ has_key-skip k i v es e
        ∙ has_key-below (suc k) (i + suc rounds) i es (omega arith) r.2 in
      rw none (
        append_points-all m rounds (suc i) ((k, v) ∷ es) series (λ j le. h j (omega arith))
          (
            omega arith,
            omega arith,
            RisingKeys-to (suc k) (suc k) (i + suc rounds) (suc i + rounds) es (omega arith)
                (omega arith) r.2,
          ))
]
