-- ===== src/Tests/App.antt =====
-- The application at a concrete run.
use aleakd.Base.{◌≡◌, refl, some, List, [], ◌∷◌}
use aleakd.Model.Records.{MemoryOperation}
use aleakd.Controller.State.{Controller}
use aleakd.Controller.Events.{Event, handle}
use aleakd.Controller.Form.{search, query_of}
use aleakd.Controller.State.{add_memory_operation, update_threads}
use aleakd.Controller.Filter.{on_filter_button_clicked}
use aleakd.Controller.OperationStore.{store_operation, append_operation, take_freed}
use aleakd.Controller.Update.{on_timer_update, update_combo_box}
use aleakd.Controller.Chart.{update_chart, show_collected, collected}
use aleakd.Model.Usage.{count, contains, update}
use aleakd.Model.Threads.{get_by_id}
use aleakd.Model.Operations.{find_first}
use aleakd.Controller.Counters.{count_memory_operation, count_usage, count_freed, count_arrival}
use aleakd.Controller.ThreadStore.{
  update_thread_infos_add_alloc, get_thread_infos, new_thread, add_alloc,
}
use aleakd.Controller.App.{
  Action, received, edited, filter_clicked, thread_double_clicked, timer_elapsed, act, run_app,
}
use aleakd.Controller.App.Invariant.{new_app, run_app-rows, run_app-combo_box, run_app-chart}
use aleakd.Controller.Chart.Points.Rising.{NeverFalls}
use aleakd.Controller.Update.Shown.{AreDistinct, AreListed}
use aleakd.View.OperationTable.{index, row_operation}
use aleakd.View.Window.{Window}
use aleakd.View.StatsView.{new_stats_labels}
use aleakd.Tests.Decimal.{decimal_qt}
use aleakd.Tests.Shown.{allocation, empty_form}

abbrev new_window : Window
new_window = record {
  stats = new_stats_labels;
  capture_message_count = [];
  capture_memory_operation_count = [];
  capture_memory_size_used = [];
  capture_thread_count = [];
  capture_symbol_infos_count = [];
}

-- The search is for all threads.
abbrev some_actions : List Action
some_actions =
    received (Event.memory (allocation 140000 4096))
    ∷ timer_elapsed
    ∷ edited (record empty_form { thread_index = some 0 })
    ∷ filter_clicked
    ∷ thread_double_clicked 0
    ∷ received (Event.memory (allocation 150000 8192))
    ∷ []

abbrev reached : Controller
reached = (run_app decimal_qt some_actions (new_app new_window empty_form)).controller

there_is_a_row : index reached.loaded_count 0 3 ≡ some (0, 3)
unfolding index run_app act handle add_memory_operation search on_filter_button_clicked
    store_operation append_operation take_freed on_timer_update update_combo_box update_chart
    show_collected collected count query_of count_memory_operation count_usage update count_freed
    count_arrival contains update_threads update_thread_infos_add_alloc get_thread_infos get_by_id
    find_first new_thread add_alloc
there_is_a_row = refl

run_app-rows_example :
    (o : MemoryOperation) × (row_operation reached.operations.objects
        reached.list_filter_memory_operation 0
      ≡ some o)
run_app-rows_example = run_app-rows decimal_qt some_actions new_window empty_form 0 3 there_is_a_row

run_app-combo_box_example :
    let c =
      (act decimal_qt timer_elapsed
        (run_app decimal_qt some_actions (new_app new_window empty_form))).controller in
    AreDistinct c.thread_id_combo_box
    × AreListed reached.threads.objects reached.threads.list_thread_infos c.thread_id_combo_box
run_app-combo_box_example = run_app-combo_box decimal_qt some_actions new_window empty_form

run_app-chart_example : NeverFalls 0 reached.last_update_time reached.line_series
run_app-chart_example = run_app-chart decimal_qt some_actions new_window empty_form
