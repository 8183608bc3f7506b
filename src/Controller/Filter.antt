-- ===== src/Controller/Filter.antt =====
-- The search of QApplicationWindowController.cpp: `onFilterButtonClicked`.
pub mod Found
use aleakd.Base.{
  ◌+◌, ◌%◌, ◌^◌, ℕ, Bool, true, false, not, ◌&&◌, Option, none, some, List, [], ◌∷◌, ◌++◌, ◌==◌,
  ltb, if◌then◌else◌, length, get_elem?, add32,
}
use aleakd.Shared.Codes.{MsgCode}
use aleakd.Model.Records.{TimeVal, MemoryOperation}
use aleakd.Model.Stats.{MemoryStats, reset}
use aleakd.Controller.Counters.{
  timer_is_set, count_operation, count_remaining, count_alloc_size, count_free_size,
}
use aleakd.Controller.State.{Controller}

-- What the fields above the list hold: the two times, the thread id (0 for any) and the check box.
pub record Query : Type 0 where
  pub tv_min : TimeVal
  pub tv_max : TimeVal
  pub thread_id : ℕ
  pub not_freed : Bool

-- `<` on the bits of two signed numbers of 64 bits
unfoldable pub long_lt : ℕ → ℕ → Bool
long_lt a b = ltb ((a + 2 ^ 63) % 2 ^ 64) ((b + 2 ^ 63) % 2 ^ 64)

-- `timer_lt`, and `timer_gt` with the arguments exchanged
unfoldable pub timer_lt : TimeVal → TimeVal → Bool
unfolding long_lt
timer_lt a b =
    if a.tv_sec == b.tv_sec then long_lt a.tv_usec b.tv_usec else long_lt a.tv_sec b.tv_sec

abbrev pub is_free : MsgCode → Bool
is_free MsgCode.free = true
is_free _ = false

-- `bAccept` after the tests
unfoldable pub accepts : Query → MemoryOperation → Bool
accepts q o =
    not (q.not_freed && is_free o.msg_code)
    && not (q.not_freed && o.freed)
    && not (ltb 0 q.thread_id && not (o.caller_thread_id == q.thread_id))
    && not (timer_is_set q.tv_min && timer_lt o.tv_operation q.tv_min)
    && not (timer_is_set q.tv_max && timer_lt q.tv_max o.tv_operation)

-- The statistics of one accepted operation.
unfoldable pub count_found : MemoryOperation → MemoryStats → MemoryStats
unfolding count_alloc_size count_free_size count_operation count_remaining
count_found o s =
    let s1 =
      count_alloc_size o.alloc_size
        (record s { memory_operation_count = add32 s.memory_operation_count 1 }) in
    let s2 = if o.freed then count_free_size o.alloc_size s1 else s1 in
    count_remaining (count_operation o.msg_code o.free_ptr s2)

-- One round of the loop: the pointer `r`, with the object behind it.
unfoldable pub search_step :
    Query → ℕ → Option MemoryOperation → List ℕ × MemoryStats → List ℕ × MemoryStats
unfolding accepts count_found
search_step q r none (found, s) = (found, s)
search_step q r (some o) (found, s) =
    if accepts q o then (found ++ r ∷ [], count_found o s) else (found, s)

-- The loop over the list of all operations.
unfoldable pub search_loop :
    Query → List MemoryOperation → List ℕ → List ℕ × MemoryStats → List ℕ × MemoryStats
unfolding search_step
search_loop q objects [] acc = acc
search_loop q objects (r ∷ rs) acc =
    search_loop q objects rs (search_step q r (get_elem? objects r) acc)

-- `onFilterButtonClicked`
unfoldable pub on_filter_button_clicked : Query → Controller → Controller
unfolding search_loop reset
on_filter_button_clicked q c =
    let (found, s) =
      search_loop q c.operations.objects c.operations.list_memory_operation
        ([], reset c.search_stats) in
    record c { list_filter_memory_operation = found; search_stats = s; loaded_count = length found }
