-- ===== src/Controller/Update.antt =====
-- `onTimerUpdate` of QApplicationWindowController.cpp: the labels with the statistics, the combo box with
-- the threads, the list of the threads and the chart.
pub mod Shown
use aleakd.Base.{
  ℕ, Bool, Option, none, some, List, [], ◌∷◌, ◌++◌, ◌==◌, if◌then◌else◌, length, get_elem?,
}
use aleakd.Model.Records.{ThreadInfos}
use aleakd.Model.Stats.{MemoryStats}
use aleakd.Controller.State.{Controller}
use aleakd.Controller.Chart.{update_chart}
use aleakd.View.Qt.{Qt, text}
use aleakd.View.Cells.{beautiful_number}
use aleakd.View.Window.{
  Window, set_capture_message_count, set_capture_memory_operation_count,
  set_capture_memory_size_used, set_capture_thread_count, set_capture_symbol_infos_count,
}
use aleakd.View.StatsView.{
  TitleItem, DataItem, StatsLabels, set_data, filter, global, op_count, total_alloc_count,
  total_alloc_size, total_free_count, total_free_size, total_remaining_count, total_remaining_size,
  malloc, calloc, realloc, free, posix_memalign, aligned_alloc, memalign, valloc, pvalloc,
}

-- The calls of `setData`, in their order.
unfoldable pub set_all : TitleItem → List (DataItem × List ℕ) → StatsLabels → StatsLabels
set_all row [] l = l
set_all row ((k, value) ∷ kvs) l = set_all row kvs (set_data row k value l)

-- The sizes and the counts of the single functions.
unfoldable pub later_values : Qt → MemoryStats → List (DataItem × List ℕ)
later_values q s =
    (total_alloc_size, q.number s.total_alloc_size)
    ∷ (total_free_count, q.number_int s.total_free_count)
    ∷ (total_free_size, q.number s.total_free_size)
    ∷ (total_remaining_count, q.number_int s.total_remaining_count)
    ∷ (total_remaining_size, q.number s.total_remaining_size)
    ∷ (malloc, q.number_int s.malloc_count)
    ∷ (calloc, q.number_int s.calloc_count)
    ∷ (realloc, q.number_int s.realloc_count)
    ∷ (free, q.number_int s.free_count)
    ∷ (posix_memalign, q.number_int s.posix_memalign_count)
    ∷ (aligned_alloc, q.number_int s.aligned_alloc_count)
    ∷ (memalign, q.number_int s.mem_align_count)
    ∷ (valloc, q.number_int s.valloc_count)
    ∷ (pvalloc, q.number_int s.pvalloc_count)
    ∷ []

-- The first column of labels shows the last search, the second one the whole capture.
unfoldable pub update_stats : Qt → Controller → StatsLabels → StatsLabels
unfolding set_all set_data later_values
update_stats q c l =
    let s = c.search_stats in
    let g = c.global_stats in
    let l' =
      set_all filter
        ((op_count, q.number_int s.memory_operation_count)
          ∷ (total_alloc_count, q.number_int s.total_alloc_count)
          ∷ later_values q s)
        l in
    set_all global
      ((total_alloc_count, q.number_int g.total_alloc_count)
        ∷ (op_count, q.number_int g.memory_operation_count)
        ∷ later_values q g)
      l'

-- `Utils::getBeautifulNumberString(QString::number(n))` for an `int` pattern
unfoldable pub beautiful_int : Qt → ℕ → List ℕ
unfolding beautiful_number
beautiful_int q n = beautiful_number (record q { number = q.number_int }) n

-- The labels of the window. The counts of threads and symbols are `int`s.
unfoldable pub update_window : Qt → Controller → Window → Window
unfolding update_stats beautiful_int beautiful_number
update_window q c w =
    let g = c.global_stats in
    let w1 = record w { stats = update_stats q c w.stats } in
    let w2 = set_capture_message_count q (beautiful_int q g.message_count) w1 in
    let w3 = set_capture_memory_operation_count q (beautiful_int q g.memory_operation_count) w2 in
    let w4 = set_capture_memory_size_used q (beautiful_number q g.memory_operation_size) w3 in
    let w5 = set_capture_thread_count q (beautiful_int q (length c.threads.list_thread_infos)) w4 in
    set_capture_symbol_infos_count q (beautiful_int q (length c.list_symbol_infos)) w5

-- The label of a thread in the combo box.
unfoldable pub entry_label : Qt → ThreadInfos → List ℕ
entry_label q t = elim t.thread_name [
  | [] ↦ q.number t.thread_id
  | c ∷ cs ↦ q.arg2 (text "%0 (%1)") (q.number t.thread_id) t.thread_name
]

-- `findData`, and then `addItem` or `setItemText`.
unfoldable pub set_item : ℕ → List ℕ → List (ℕ × List ℕ) → List (ℕ × List ℕ)
set_item id label [] = (id, label) ∷ []
set_item id label ((j, l) ∷ items) =
    if j == id then (j, label) ∷ items else (j, l) ∷ set_item id label items

unfoldable pub set_thread : Qt → Option ThreadInfos → List (ℕ × List ℕ) → List (ℕ × List ℕ)
unfolding set_item entry_label
set_thread q none items = items
set_thread q (some t) items = set_item t.thread_id (entry_label q t) items

-- The loop over the list of the threads.
unfoldable pub set_threads : Qt → List ThreadInfos → List ℕ → List (ℕ × List ℕ) → List (ℕ × List ℕ)
unfolding set_thread
set_threads q objects [] items = items
set_threads q objects (r ∷ rs) items =
    set_threads q objects rs (set_thread q (get_elem? objects r) items)

-- An empty combo box gets the item for all threads first.
unfoldable pub with_all_threads : List (ℕ × List ℕ) → List (ℕ × List ℕ)
with_all_threads [] = (0, text "All threads") ∷ []
with_all_threads items = items

unfoldable pub update_combo_box : Qt → Controller → Controller
unfolding set_threads with_all_threads
update_combo_box q c = record c {
  thread_id_combo_box =
      set_threads q c.threads.objects c.threads.list_thread_infos
        (with_all_threads c.thread_id_combo_box);
  list_filter_thread_infos = c.threads.list_thread_infos;
}

-- `onTimerUpdate`
unfoldable pub on_timer_update : Qt → Controller × Window → Controller × Window
unfolding update_window update_combo_box update_chart
on_timer_update q (c, w) = (update_chart (update_combo_box q c), update_window q c w)
