-- ===== src/View/Window.antt =====
-- The labels of the main window (server/GUI/QApplicationWindow.cpp) for the state of a capture.
use aleakd.Base.{ℕ, List}
use aleakd.View.Qt.{Qt, text}
use aleakd.View.StatsView.{StatsLabels}

-- The labels, and the statistics that the window holds.
pub record Window : Type 0 where
  pub stats : StatsLabels
  pub capture_message_count : List ℕ
  pub capture_memory_operation_count : List ℕ
  pub capture_memory_size_used : List ℕ
  pub capture_thread_count : List ℕ
  pub capture_symbol_infos_count : List ℕ

-- `setCaptureMessageCount`, `setCaptureMemoryOperationCount`, `setCaptureMemorySizeUsed`,
-- `setCaptureThreadCount` and `setCaptureSymbolInfosCount`
module _ (q : Qt) (value : List ℕ) (w : Window) where
  unfoldable pub set_capture_message_count : Window
  set_capture_message_count = record w {
    capture_message_count = q.arg1 (text "Message count: %0") value;
  }

  unfoldable pub set_capture_memory_operation_count : Window
  set_capture_memory_operation_count = record w {
    capture_memory_operation_count = q.arg1 (text "Operation count: %0") value;
  }

  unfoldable pub set_capture_memory_size_used : Window
  set_capture_memory_size_used = record w {
    capture_memory_size_used = q.arg1 (text "Memory usage: %0 bytes") value;
  }

  unfoldable pub set_capture_thread_count : Window
  set_capture_thread_count = record w { capture_thread_count = q.arg1 (text "Threads: %0") value }

  unfoldable pub set_capture_symbol_infos_count : Window
  set_capture_symbol_infos_count = record w {
    capture_symbol_infos_count = q.arg1 (text "Symbols: %0") value;
  }
