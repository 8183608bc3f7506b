-- ===== src/Controller/App/Invariant.antt =====
-- What holds in every state of the application of QApplicationWindowController.cpp.
use aleakd.Base.{ℕ, ◌≡◌, refl, some, List, [], ◌∷◌, ◌==◌, Bool-cases, inl, inr, arith}
use aleakd.Model.Records.{MemoryOperation}
use aleakd.Model.Usage.{MemoryUsage, count}
use aleakd.Controller.State.{
  Controller, new_controller, on_new_connection, clear_data, add_memory_operation,
  on_thread_operation, add_backtrace, add_symbol_infos,
}
use aleakd.Controller.Events.{Event, handle}
use aleakd.Controller.Form.{Form, search, query_of}
use aleakd.Controller.Filter.{Query, on_filter_button_clicked}
use aleakd.Controller.Table.{
  IsFilled, handle-IsFilled, search-IsFilled, AllLead-object, row_of_index,
}
use aleakd.Controller.Chart.{show_collected, update_chart, collected}
use aleakd.Controller.Chart.Points.Rising.{NeverFalls, update_chart-NeverFalls}
use aleakd.Controller.Update.{update_combo_box, on_timer_update}
use aleakd.Controller.Update.Shown.{AreDistinct, AreListed, update_combo_box-items}
use aleakd.Controller.App.{
  App, Action, received, edited, filter_clicked, thread_double_clicked, timer_elapsed, act, run_app,
}
use aleakd.View.Qt.{Qt}
use aleakd.View.Window.{Window}
use aleakd.View.OperationTable.{row_operation, index}

-- What the parts that the user sees promise: the table of the operations, the combo box of the threads
-- and the chart.
pub record IsShown (c : Controller) : Type 0 where
  pub filled : IsFilled c
  pub combo_box : AreDistinct c.thread_id_combo_box
  pub chart : NeverFalls 0 c.last_update_time c.line_series

handle-IsShown : (e : Event) (c : Controller) → IsShown c → IsShown (handle e c)
unfolding handle on_new_connection clear_data add_memory_operation on_thread_operation add_backtrace
    add_symbol_infos
handle-IsShown Event.connected c s = record {
  filled = handle-IsFilled Event.connected c s.filled;
  combo_box = tt;
  chart = omega arith;
}
handle-IsShown (Event.memory o) c s = record {
  filled = handle-IsFilled (Event.memory o) c s.filled;
  combo_box = s.combo_box;
  chart = s.chart;
}
handle-IsShown (Event.thread o) c s = record {
  filled = handle-IsFilled (Event.thread o) c s.filled;
  combo_box = s.combo_box;
  chart = s.chart;
}
handle-IsShown (Event.traced b) c s = record {
  filled = handle-IsFilled (Event.traced b) c s.filled;
  combo_box = s.combo_box;
  chart = s.chart;
}
handle-IsShown (Event.symbols x) c s = record {
  filled = handle-IsFilled (Event.symbols x) c s.filled;
  combo_box = s.combo_box;
  chart = s.chart;
}

search-IsShown : (q : Query) (c : Controller) → IsShown c → IsShown (on_filter_button_clicked q c)
search-IsShown q c s = record {
  filled = search-IsFilled q c s.filled;
  combo_box = unfold on_filter_button_clicked in s.combo_box;
  chart = unfold on_filter_button_clicked in s.chart;
}

-- The chart is all that its update changes.
show_collected-others :
    (p : MemoryUsage × ℕ) (c : Controller)
    → ((show_collected p c).thread_id_combo_box ≡ c.thread_id_combo_box)
      × (IsFilled c → IsFilled (show_collected p c))
unfolding show_collected
show_collected-others p c = elim (Bool-cases (count p.0 == 0)) [
  | inl e ↦ rw e (refl, λ f. f)
  | inr e ↦ rw e (refl, λ f. record { rows = f.rows; shown = f.shown; stored = f.stored })
]

-- A timer update leaves a combo box with an item for each thread.
timer-combo_box :
    (q : Qt) (c : Controller)
    → AreDistinct c.thread_id_combo_box
    → let c' = update_chart (update_combo_box q c) in
      AreDistinct c'.thread_id_combo_box
      × AreListed c.threads.objects c.threads.list_thread_infos c'.thread_id_combo_box
unfolding update_chart
timer-combo_box q c d =
    let c' = update_combo_box q c in
    rw ((show_collected-others (collected c') c').0) (update_combo_box-items q c d)

timer-IsShown :
    (q : Qt) (c : Controller) → IsShown c → IsShown (update_chart (update_combo_box q c))
timer-IsShown q c s =
    let c' = update_combo_box q c in
    let filled : IsFilled c' =
      unfold update_combo_box in
      record { rows = s.filled.rows; shown = s.filled.shown; stored = s.filled.stored } in
    record {
      filled = unfold update_chart in (show_collected-others (collected c') c').1 filled;
      combo_box = (timer-combo_box q c s.combo_box).0;
      chart = update_chart-NeverFalls c' (unfold update_combo_box in s.chart);
    }

act-IsShown :
    (q : Qt) (action : Action) (a : App)
    → IsShown a.controller
    → IsShown (act q action a).controller
unfolding act search on_timer_update
act-IsShown q (received e) a s = handle-IsShown e a.controller s
act-IsShown q (edited f) a s = s
act-IsShown q filter_clicked a s =
    search-IsShown (query_of q a.controller.thread_id_combo_box a.form) a.controller s
act-IsShown q (thread_double_clicked row) a s = s
act-IsShown q timer_elapsed a s = timer-IsShown q a.controller s

run_app-IsShown :
    (q : Qt) (actions : List Action) (a : App)
    → IsShown a.controller
    → IsShown (run_app q actions a).controller
unfolding run_app
run_app-IsShown q [] a s = s
run_app-IsShown q (action ∷ actions) a s =
    run_app-IsShown q actions (act q action a) (act-IsShown q action a s)

-- The application at its start, with any window and fields.
abbrev pub new_app : Window → Form → App
new_app w f = record { controller = new_controller; window = w; form = f }

new-IsShown : IsShown new_controller
new-IsShown = record {
  filled = record { rows = refl; shown = tt; stored = tt };
  combo_box = tt;
  chart = omega arith;
}

module _ (q : Qt) (actions : List Action) (w : Window) (f : Form) where
  reached-IsShown : IsShown (run_app q actions (new_app w f)).controller
  reached-IsShown = run_app-IsShown q actions (new_app w f) new-IsShown

  -- After any messages, timer updates, double clicks, and searches with any fields, every cell that the
  -- table of the operations has is that of an operation.
  pub run_app-rows :
      (row col : ℕ) {p : ℕ × ℕ}
      → let c = (run_app q actions (new_app w f)).controller in
        index c.loaded_count row col ≡ some p
        → (o : MemoryOperation) × (row_operation c.operations.objects c.list_filter_memory_operation
              row
            ≡ some o)
  run_app-rows row col e =
      let c = (run_app q actions (new_app w f)).controller in
      let s = reached-IsShown.filled in
      AllLead-object c.operations.objects c.list_filter_memory_operation row s.shown
        (omega (arith, s.rows, row_of_index c.loaded_count row col e))

  -- After any messages, timer updates, double clicks, and searches with any fields, a further timer
  -- update leaves a combo box in which no two items have the same data and every thread of the capture
  -- has an item with its id.
  pub run_app-combo_box :
      let c = (run_app q actions (new_app w f)).controller in
      let c' = (act q timer_elapsed (run_app q actions (new_app w f))).controller in
      AreDistinct c'.thread_id_combo_box
      × AreListed c.threads.objects c.threads.list_thread_infos c'.thread_id_combo_box
  unfolding act on_timer_update
  run_app-combo_box =
      timer-combo_box q (run_app q actions (new_app w f)).controller reached-IsShown.combo_box

  -- After any messages, timer updates, double clicks, and searches with any fields, the times of the
  -- points of the chart never fall from one to the next, and none is after the time of the last update.
  pub run_app-chart :
      let c = (run_app q actions (new_app w f)).controller in
      NeverFalls 0 c.last_update_time c.line_series
  run_app-chart = reached-IsShown.chart
