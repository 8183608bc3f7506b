-- ===== src/Controller/State.antt =====
-- QApplicationWindowController: its state, the handler that the receiver calls (`onNewConnection`,
-- `onMemoryOperationReceived`, `onThreadOperationReceived`, `onBacktraceReceived`,
-- `onSymbolInfosReceived`) and `clearData`. The locks are those of one writer at a time.
use aleakd.Base.{ℕ, Option, none, some, List, [], ◌==◌, if◌then◌else◌, add32}
use aleakd.Model.Records.{MemoryOperation, ThreadOperation, Backtrace, SymbolInfos}
use aleakd.Model.Stats.{MemoryStats, new_memory_stats, reset}
use aleakd.Model.Symbols.{SymbolInfosList, contains, insert}
use aleakd.Server.Handler.{Handler}
use aleakd.Controller.ThreadStore.{
  ThreadStore, update_thread_infos, update_thread_infos_add_alloc, update_thread_infos_add_free,
}
use aleakd.Controller.OperationStore.{OperationStore, store_operation, attach_backtrace}
use aleakd.Controller.Counters.{count_memory_operation}

-- The fields of the class, with what its models and views hold: the rows that the operation model
-- has loaded, the items of the combo box, each with its data and the points of the chart.
pub record Controller : Type 0 where
  pub operations : OperationStore
  pub threads : ThreadStore
  pub list_symbol_infos : SymbolInfosList
  pub global_stats : MemoryStats
  pub search_stats : MemoryStats
  pub list_filter_memory_operation : List ℕ
  pub list_filter_thread_infos : List ℕ
  pub loaded_count : ℕ
  pub thread_id_combo_box : List (ℕ × List ℕ)
  pub line_series : List (ℕ × ℕ)
  pub last_update_time : ℕ
  pub last_update_value : ℕ

-- `QApplicationWindowController::QApplicationWindowController()` and the state of its members.
abbrev pub new_controller : Controller
new_controller = record {
  operations = record {
    objects = [];
    list_memory_operation = [];
    list_memory_operation_non_freed = [];
    list_memory_operation_without_backtrace = [];
  };
  threads = record { objects = []; list_thread_infos = []; list_thread_infos_alive = [] };
  list_symbol_infos = [];
  global_stats = new_memory_stats;
  search_stats = new_memory_stats;
  list_filter_memory_operation = [];
  list_filter_thread_infos = [];
  loaded_count = 0;
  thread_id_combo_box = [];
  line_series = [];
  last_update_time = 0;
  last_update_value = 0;
}

-- `m_globalStats.m_iMessageCount++;`
abbrev pub count_message : Controller → Controller
count_message c =
    let s = c.global_stats in
    record c { global_stats = record s { message_count = add32 s.message_count 1 } }

-- `clearData`. The list of the threads alive is left as it is.
unfoldable pub clear_data : Controller → Controller
clear_data c =
    let ops = c.operations in
    let threads = c.threads in
    record c {
      operations = record ops {
        list_memory_operation = [];
        list_memory_operation_non_freed = [];
        list_memory_operation_without_backtrace = [];
      };
      list_symbol_infos = [];
      search_stats = reset c.search_stats;
      global_stats = reset c.global_stats;
      threads = record threads { list_thread_infos = [] };
      list_filter_memory_operation = [];
      loaded_count = 0;
      list_filter_thread_infos = [];
      thread_id_combo_box = [];
      line_series = [];
      last_update_time = 0;
      last_update_value = 0;
    }

-- The thread entries in `addMemoryOperation`: first the thread that made the allocation now freed,
-- then the thread of a new allocation.
unfoldable pub update_threads : MemoryOperation → Option MemoryOperation → ThreadStore → ThreadStore
update_threads o freed st =
    let st' : ThreadStore = elim freed [
      | none ↦ st
      | some f ↦
          update_thread_infos_add_free f.caller_thread_id f.msg_num f.alloc_size o.tv_operation st
    ] in
    if o.alloc_ptr == 0
    then st'
    else update_thread_infos_add_alloc o.caller_thread_id o.msg_num o.alloc_size o.tv_operation st'

-- `addMemoryOperation`
unfoldable pub add_memory_operation : MemoryOperation → Controller → Controller
add_memory_operation o c =
    let (freed, ops) = store_operation o c.operations in
    record c {
      operations = ops;
      global_stats = count_memory_operation o freed c.global_stats;
      threads = update_threads o freed c.threads;
    }

-- `onNewConnection`
unfoldable pub on_new_connection : Controller → Controller
on_new_connection c = count_message (clear_data c)

-- `updateThreadInfos`
unfoldable pub on_thread_operation : ThreadOperation → Controller → Controller
on_thread_operation o c =
    let c' = count_message c in record c' { threads = update_thread_infos o c'.threads }

-- `addBacktrace`
unfoldable pub add_backtrace : Backtrace → Controller → Controller
add_backtrace b c = count_message (record c { operations = attach_backtrace b c.operations })

-- `addSymbolInfos`
unfoldable pub add_symbol_infos : SymbolInfos → Controller → Controller
add_symbol_infos s c = count_message (record c {
  list_symbol_infos =
      if contains s.addr c.list_symbol_infos
      then c.list_symbol_infos
      else insert s.addr s c.list_symbol_infos;
})

-- The controller behind the interface of the receiver.
unfoldable pub controller_handler : Handler Controller
controller_handler = record {
  on_new_connection = on_new_connection;
  on_memory_operation_received = add_memory_operation;
  on_thread_operation_received = on_thread_operation;
  on_backtrace_received = add_backtrace;
  on_symbol_infos_received = add_symbol_infos;
}
