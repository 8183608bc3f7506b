-- ===== src/Controller/Chart/Points/Due.antt =====
-- What `onTimerUpdate` of QApplicationWindowController.cpp adds to the chart.
use aleakd.Base.{
  ℕ, suc, ◌+◌, ◌-◌, ◌≤◌, ◌≡◌, refl, sym, ap, subst, ◌∙◌, Bool, true, false, List, [], ◌∷◌, ◌++◌,
  append-nil, ◌==◌, ne→==, if◌then◌else◌, length, Bool-cases, inl, inr, arith,
}
use aleakd.Model.Usage.{EntryList, contains, count, value}
use aleakd.Controller.State.{Controller}
use aleakd.Controller.Chart.{rounds_to, start_time, collected, show_collected, update_chart}
use aleakd.Controller.Chart.Points.{new_points, RisingKeys, usage_of, last_key}
use aleakd.Controller.Chart.Points.Collected.{
  new_points-RisingKeys, collect-fresh, append_points-all,
}

-- The points that are still to be shown: from the second shown last on, or from the first one, up to
-- the last one of which the memory in use is known.
unfoldable pub points_due : Controller → List (ℕ × ℕ)
unfolding new_points
points_due c =
    let u = c.global_stats.memory_usage in
    let start = start_time c in
    let due =
      new_points u c.last_update_time c.last_update_value (rounds_to start u.last_time) start in
    if start == 0 then [] else due

pub collected-points_due : (c : Controller) → (collected c).0 ≡ usage_of (points_due c)
unfolding collected points_due
collected-points_due c = elim (Bool-cases (start_time c == 0)) [
  | inl e ↦ rw e refl
  | inr e ↦ rw e (
      collect-fresh c.global_stats.memory_usage c.last_update_time c.last_update_value _
        (start_time c) (start_time c) 0 [] (ground arith) (omega arith) tt)
]

-- The keys lie between the first and the last one.
pub RisingKeys-tight :
    (k hi : ℕ) (es : EntryList)
    → RisingKeys (suc k) hi es
    → (k ≤ last_key k es) × RisingKeys (suc k) (suc (last_key k es)) es
RisingKeys-tight k hi [] h = (omega arith, tt)
RisingKeys-tight k hi ((j, v) ∷ es) h =
    let (le, r) = RisingKeys-tight j hi es h.2 in (omega arith, (h.0, omega arith, r))

show_collected-points :
    (lo hi size : ℕ) (es : EntryList) (c : Controller)
    → RisingKeys lo hi es
    → (show_collected (usage_of es, size) c).line_series ≡ c.line_series ++ es
unfolding show_collected count contains value
show_collected-points lo hi size [] c h = sym (append-nil c.line_series)
show_collected-points lo hi size ((k, v) ∷ es) c h =
    let (le, r) = RisingKeys-tight k hi es h.2 in
    rw (ne→== (length ((k, v) ∷ es)) 0 (λ e. omega arith)) (
      append_points-all (usage_of ((k, v) ∷ es)) (rounds_to k (last_key k es)) k ((k, v) ∷ es)
        c.line_series (λ j less. (refl, refl))
        (
          omega arith,
          omega arith,
          subst (λ n. RisingKeys (suc k) n es)
              (let e : suc (last_key k es) ≡ k + (suc (last_key k es) - k) = omega arith in e) r,
        ))

pub points_due-RisingKeys :
    (c : Controller) → (hi : ℕ) × RisingKeys (start_time c) hi (points_due c)
unfolding points_due
points_due-RisingKeys c =
    let n = rounds_to (start_time c) c.global_stats.memory_usage.last_time in
    (
      start_time c + n,
      tested (start_time c == 0) _ _ _ (
          new_points-RisingKeys c.global_stats.memory_usage c.last_update_time c.last_update_value n
            (start_time c)),
    )
  where
    tested :
        (b : Bool) (lo hi : ℕ) (es : EntryList)
        → RisingKeys lo hi es
        → RisingKeys lo hi (if b then [] else es)
    tested true lo hi es h = tt
    tested false lo hi es h = h

-- The chart gets exactly the points that are due, in the order of their times: the two loops over the
-- hash lose none and double none.
pub update_chart-points :
    (c : Controller) → (update_chart c).line_series ≡ c.line_series ++ points_due c
unfolding update_chart
update_chart-points c =
    let (hi, rising) = points_due-RisingKeys c in
    ap (λ f. (show_collected (f, (collected c).1) c).line_series) (collected-points_due c)
    ∙ show_collected-points (start_time c) hi (collected c).1 (points_due c) c rising
