-- ===== src/Controller/Chart/Points/Rising.antt =====
-- The times of the chart that `onTimerUpdate` of QApplicationWindowController.cpp fills.
use aleakd.Model.Usage.{count}
use aleakd.Base.{
  ne→==, length, suc, ℕ, ◌≤◌, ◌≡◌, refl, ap, ◌∙◌, List, [], ◌∷◌, ◌++◌, ◌==◌, Bool-cases, inl, inr,
  arith,
}
use aleakd.Controller.State.{Controller}
use aleakd.Controller.Chart.{start_time, collected, show_collected, update_chart}
use aleakd.Controller.Chart.Points.{RisingKeys, last_key, usage_of}
use aleakd.Controller.Chart.Points.Due.{
  points_due, collected-points_due, points_due-RisingKeys, update_chart-points,
}
use aleakd.Controller.Chart.Points.Again.{time-le-start}

-- Times that never fall, the first one at least `lo` and the last one at most `hi`.
abbrev pub NeverFalls : ℕ → ℕ → List (ℕ × ℕ) → Type 0
NeverFalls lo hi [] = lo ≤ hi
NeverFalls lo hi ((t, v) ∷ ps) = (lo ≤ t) × NeverFalls t hi ps

NeverFalls-append :
    (lo mid hi : ℕ) (ps qs : List (ℕ × ℕ))
    → NeverFalls lo mid ps
    → NeverFalls mid hi qs
    → NeverFalls lo hi (ps ++ qs)
NeverFalls-append lo mid hi [] [] h k = omega arith
NeverFalls-append lo mid hi [] ((t, v) ∷ qs) h k = (omega arith, k.1)
NeverFalls-append lo mid hi ((t, v) ∷ ps) qs h k = (h.0, NeverFalls-append t mid hi ps qs h.1 k)

RisingKeys-NeverFalls :
    (m lo hi : ℕ) (es : List (ℕ × ℕ))
    → m ≤ lo
    → RisingKeys lo hi es
    → NeverFalls m (last_key m es) es
RisingKeys-NeverFalls m lo hi [] le h = omega arith
RisingKeys-NeverFalls m lo hi ((k, v) ∷ es) le h =
    (omega arith, RisingKeys-NeverFalls k (suc k) hi es (omega arith) h.2)

points_due-NeverFalls :
    (c : Controller)
    → NeverFalls c.last_update_time (last_key c.last_update_time (points_due c)) (points_due c)
points_due-NeverFalls c = elim (Bool-cases (start_time c == 0)) [
  | inl e ↦ unfold points_due in rw e (omega arith)
  | inr e ↦
      let (hi, rising) = points_due-RisingKeys c in
      RisingKeys-NeverFalls c.last_update_time (start_time c) hi (points_due c) (time-le-start c e)
        rising
]

show_collected-last :
    (size : ℕ) (es : List (ℕ × ℕ)) (c : Controller)
    → (show_collected (usage_of es, size) c).last_update_time ≡ last_key c.last_update_time es
unfolding show_collected count
show_collected-last size [] c = refl
show_collected-last size (e ∷ es) c = rw (ne→== (length (e ∷ es)) 0 (λ e. omega arith)) refl

update_chart-last :
    (c : Controller)
    → (update_chart c).last_update_time ≡ last_key c.last_update_time (points_due c)
unfolding update_chart
update_chart-last c =
    ap (λ f. (show_collected (f, (collected c).1) c).last_update_time) (collected-points_due c)
    ∙ show_collected-last (collected c).1 (points_due c) c

-- An update of a chart whose times never fall leaves one, up to the time of the last update.
pub update_chart-NeverFalls :
    (c : Controller)
    → NeverFalls 0 c.last_update_time c.line_series
    → NeverFalls 0 (update_chart c).last_update_time (update_chart c).line_series
update_chart-NeverFalls c h =
    rw (update_chart-last c, update_chart-points c)
      (NeverFalls-append 0 c.last_update_time _ c.line_series (points_due c) h
        (points_due-NeverFalls c))
