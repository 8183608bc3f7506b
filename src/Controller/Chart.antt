-- ===== src/Controller/Chart.antt =====
-- The chart of the memory in use: the second half of `onTimerUpdate` of QApplicationWindowController.cpp.
pub mod Points
use aleakd.Base.{
  ℕ, zero, suc, ◌+◌, ◌-◌, Bool, true, false, not, List, [], ◌∷◌, ◌++◌, ◌==◌, if◌then◌else◌,
}
use aleakd.Model.Usage.{MemoryUsage, new_memory_usage, contains, count, value, update}
use aleakd.Controller.State.{Controller}

-- One second `i` of the first loop: the memory usage that is still to be shown, and `iLastSize`.
unfoldable pub visit : MemoryUsage → ℕ → ℕ → ℕ → MemoryUsage × ℕ → MemoryUsage × ℕ
visit u time last i (fresh, size) =
    if contains u i
    then (
      if i == time
          then if not (last == value u i) then update fresh i (value u i) else fresh
          else update fresh i (value u i),
      value u i,
    )
    else (fresh, size)

-- The first loop, `rounds` seconds from `i` on.
unfoldable pub collect : MemoryUsage → ℕ → ℕ → ℕ → ℕ → MemoryUsage × ℕ → MemoryUsage × ℕ
unfolding visit
collect u time last zero i acc = acc
collect u time last (suc rounds) i acc =
    collect u time last rounds (suc i) (visit u time last i acc)

-- `for (quint64 i = from; i <= to; i++)` makes this many rounds, as long as `to` is not the largest
-- number of 64 bits.
abbrev pub rounds_to : ℕ → ℕ → ℕ
rounds_to from to = suc to - from

-- The second loop, which puts what was collected into the chart.
unfoldable pub append_points : MemoryUsage → ℕ → ℕ → List (ℕ × ℕ) → List (ℕ × ℕ)
append_points fresh zero i series = series
append_points fresh (suc rounds) i series =
    let next = series ++ (i, value fresh i) ∷ [] in
    append_points fresh rounds (suc i) (if contains fresh i then next else series)

-- `iStartTime`
abbrev pub start_time : Controller → ℕ
start_time c =
    if c.last_update_time == 0 then c.global_stats.memory_usage.first_time else c.last_update_time

-- The first loop with its test, from the state of the controller.
unfoldable pub collected : Controller → MemoryUsage × ℕ
collected c =
    let u = c.global_stats.memory_usage in
    let start = start_time c in
    let all =
      collect u c.last_update_time c.last_update_value (rounds_to start u.last_time) start
        (new_memory_usage, 0) in
    if start == 0 then (new_memory_usage, 0) else all

-- What `onTimerUpdate` does with what was collected.
unfoldable pub show_collected : MemoryUsage × ℕ → Controller → Controller
show_collected (fresh, size) c = if count fresh == 0 then c else record c {
  last_update_time = fresh.last_time;
  last_update_value = size;
  line_series =
      append_points fresh (rounds_to fresh.first_time fresh.last_time) fresh.first_time
        c.line_series;
}

-- The chart in `onTimerUpdate`
unfoldable pub update_chart : Controller → Controller
unfolding collected show_collected collect append_points
update_chart c = show_collected (collected c) c
