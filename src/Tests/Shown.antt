-- ===== src/Tests/Shown.antt =====
-- What the controller shows, at concrete data.
use aleakd.Base.{ℕ, ◌≡◌, refl, true, none, some, [], ◌∷◌, ◌++◌, ◌&&◌, arith}
use aleakd.Shared.Codes.{MsgCode}
use aleakd.Model.Records.{
  TimeVal, timer_clear, MemoryOperation, new_memory_operation, ThreadInfos, new_thread_infos,
  SymbolInfos,
}
use aleakd.Model.Objects.{holds}
use aleakd.Model.Operations.Search.{keep}
use aleakd.Model.Usage
use aleakd.Controller.State.{Controller, new_controller, add_symbol_infos}
use aleakd.Controller.Events.{Event, run}
use aleakd.Controller.Filter.{Query, on_filter_button_clicked}
use aleakd.Controller.Table.Colors.{on_filter_button_clicked-red}
use aleakd.Controller.Form.{
  Form, Tab, search, on_thread_infos_double_clicked, made_by, is_kept,
  on_thread_infos_double_clicked-search,
}
use aleakd.Controller.Chart.{update_chart}
use aleakd.Controller.Chart.Points.Due.{points_due, update_chart-points}
use aleakd.Controller.Chart.Points.Again.{update_chart-again}
use aleakd.Controller.Details.{backtrace_row, IsSymbolRow, run-backtrace_row}
use aleakd.View.Cells.{color}
use aleakd.View.OperationTable.{background, index, data_of}
use aleakd.View.ThreadTable.{row_thread}
use aleakd.Tests.Decimal.{decimal_qt, decimal_qt-QtLaws}

abbrev at_time : ℕ → TimeVal
at_time n = record { tv_sec = n; tv_usec = 250 }

abbrev pub allocation : ℕ → ℕ → MemoryOperation
allocation thread ptr = record new_memory_operation {
  tv_operation = at_time 71;
  msg_code = MsgCode.malloc;
  caller_thread_id = thread;
  alloc_size = 16;
  alloc_ptr = ptr;
}

abbrev a_thread : ThreadInfos
a_thread = record new_thread_infos { thread_id = 140000; tv_creation = at_time 70 }

-- Two operations of two threads, one of which is in the list.
abbrev a_capture : Controller
a_capture =
    let c = new_controller in
    let ops = c.operations in
    let threads = c.threads in
    let stats = c.global_stats in
    record c {
      operations = record ops {
        objects = allocation 140000 4096 ∷ allocation 150000 8192 ∷ [];
        list_memory_operation = 0 ∷ 1 ∷ [];
        list_memory_operation_non_freed = 0 ∷ 1 ∷ [];
      };
      threads = record threads { objects = a_thread ∷ []; list_thread_infos = 0 ∷ [] };
      global_stats = record stats {
        memory_usage = record {
          first_time = 70;
          last_time = 72;
          list_size_by_timestamp = (72, 48) ∷ (70, 16) ∷ [];
        };
      };
    }

abbrev pub empty_form : Form
empty_form = record {
  time_stamp_min = [];
  time_stamp_max = [];
  thread_index = none;
  thread_text = [];
  not_free_only = true;
  current_tab = Tab.another;
}

first_thread :
    row_thread a_capture.threads.objects a_capture.threads.list_thread_infos 0 ≡ some a_thread
unfolding row_thread
first_thread = refl

on_thread_infos_double_clicked-search_example :
    (search decimal_qt
      (on_thread_infos_double_clicked decimal_qt 0 a_capture empty_form)
      a_capture).list_filter_memory_operation
    ≡ keep
        (holds a_capture.operations.objects (λ o. made_by a_thread o && is_kept true o))
        a_capture.operations.list_memory_operation
on_thread_infos_double_clicked-search_example =
    on_thread_infos_double_clicked-search decimal_qt 0 a_capture empty_form decimal_qt-QtLaws
      first_thread (omega arith, omega arith) (omega arith, omega arith) (omega arith, omega arith)

abbrev live_query : Query
live_query = record { tv_min = timer_clear; tv_max = timer_clear; thread_id = 0; not_freed = true }

there_are_two_rows :
    index (on_filter_button_clicked live_query a_capture).loaded_count 1 0 ≡ some (1, 0)
unfolding index on_filter_button_clicked
there_are_two_rows = refl

on_filter_button_clicked-red_example :
    data_of decimal_qt
      (on_filter_button_clicked live_query a_capture).operations.objects
      (on_filter_button_clicked live_query a_capture).list_filter_memory_operation
      (some (1, 0))
      background
    ≡ color 255 180 180
on_filter_button_clicked-red_example =
    on_filter_button_clicked-red decimal_qt live_query a_capture 1 0 refl there_are_two_rows

two_points_due : points_due a_capture ≡ (70, 16) ∷ (72, 48) ∷ []
unfolding points_due aleakd.Model.Usage.contains aleakd.Model.Usage.value
two_points_due = refl

update_chart-points_example :
    (update_chart a_capture).line_series ≡ a_capture.line_series ++ points_due a_capture
update_chart-points_example = update_chart-points a_capture

update_chart-again_example :
    (update_chart (update_chart a_capture)).line_series ≡ (update_chart a_capture).line_series
update_chart-again_example = update_chart-again a_capture

abbrev a_symbol : SymbolInfos
a_symbol = record {
  addr = 500;
  object_name = 97 ∷ [];
  object_addr = 64;
  symbol_name = 102 ∷ [];
  symbol_addr = 480;
}

run-backtrace_row_example : IsSymbolRow decimal_qt a_symbol (
    backtrace_row decimal_qt
      (run (Event.symbols a_symbol ∷ []) (add_symbol_infos a_symbol a_capture)).list_symbol_infos
      500)
run-backtrace_row_example =
    run-backtrace_row decimal_qt (Event.symbols a_symbol ∷ []) a_capture a_symbol tt refl
      (omega arith) (omega arith) (omega arith)
