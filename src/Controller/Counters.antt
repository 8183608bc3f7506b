-- ===== src/Controller/Counters.antt =====
-- The statistics in QApplicationWindowController.cpp: the counting in `addMemoryOperation`, and the
-- same switch in `onFilterButtonClicked`.
use aleakd.Base.{
  ℕ, Bool, ◌||◌, not, Option, none, some, ◌==◌, ltb, if◌then◌else◌, add64, sub64, add32, sub32,
}
use aleakd.Shared.Codes.{MsgCode}
use aleakd.Model.Records.{TimeVal, MemoryOperation}
use aleakd.Model.Stats.{MemoryStats}
use aleakd.Model.Usage.{update}

-- `sizeof(MemoryOperation)` on a 64-bit system.
abbrev pub operation_size : ℕ
operation_size = 96

-- `timerisset`
abbrev pub timer_is_set : TimeVal → Bool
timer_is_set tv = not (tv.tv_sec == 0) || not (tv.tv_usec == 0)

-- One more message, from the time of the operation on.
unfoldable pub count_arrival : TimeVal → MemoryStats → MemoryStats
count_arrival tv s = record s {
  message_count = add32 s.message_count 1;
  tv_start_time = if timer_is_set s.tv_start_time then s.tv_start_time else tv;
  tv_last_time = tv;
  memory_operation_count = add32 s.memory_operation_count 1;
  memory_operation_size = add64 s.memory_operation_size operation_size;
}

-- The allocated size is added, and the peak follows.
unfoldable pub count_alloc_size : ℕ → MemoryStats → MemoryStats
count_alloc_size size s =
    let remaining = add64 s.total_remaining_size size in
    record s {
      total_alloc_size = add64 s.total_alloc_size size;
      total_remaining_size = remaining;
      peak_remaining_size =
          if ltb s.peak_remaining_size remaining then remaining else s.peak_remaining_size;
    }

-- The size of an operation that was freed is taken off.
unfoldable pub count_free_size : ℕ → MemoryStats → MemoryStats
count_free_size size s = record s {
  total_free_size = add64 s.total_free_size size;
  total_remaining_size = sub64 s.total_remaining_size size;
}

abbrev alloc_counted : MemoryStats → MemoryStats
alloc_counted s = record s { total_alloc_count = add32 s.total_alloc_count 1 }

abbrev free_counted : MemoryStats → MemoryStats
free_counted s = record s { total_free_count = add32 s.total_free_count 1 }

-- The `switch` over the code of the operation.
unfoldable pub count_operation : MsgCode → ℕ → MemoryStats → MemoryStats
count_operation MsgCode.malloc ptr s =
    alloc_counted (record s { malloc_count = add32 s.malloc_count 1 })
count_operation MsgCode.calloc ptr s =
    alloc_counted (record s { calloc_count = add32 s.calloc_count 1 })
count_operation MsgCode.realloc ptr s =
    let s' = alloc_counted (record s { realloc_count = add32 s.realloc_count 1 }) in
    if ptr == 0 then s' else free_counted s'
count_operation MsgCode.free ptr s = free_counted (record s { free_count = add32 s.free_count 1 })
count_operation MsgCode.posix_memalign ptr s =
    alloc_counted (record s { posix_memalign_count = add32 s.posix_memalign_count 1 })
count_operation MsgCode.aligned_alloc ptr s =
    alloc_counted (record s { aligned_alloc_count = add32 s.aligned_alloc_count 1 })
count_operation MsgCode.memalign ptr s =
    alloc_counted (record s { mem_align_count = add32 s.mem_align_count 1 })
count_operation MsgCode.valloc ptr s =
    alloc_counted (record s { valloc_count = add32 s.valloc_count 1 })
count_operation MsgCode.pvalloc ptr s =
    alloc_counted (record s { pvalloc_count = add32 s.pvalloc_count 1 })
count_operation _ ptr s = s

-- `m_iTotalRemainingCount = m_iTotalAllocCount - m_iTotalFreeCount;`
unfoldable pub count_remaining : MemoryStats → MemoryStats
count_remaining s = record s {
  total_remaining_count = sub32 s.total_alloc_count s.total_free_count;
}

unfoldable pub count_usage : TimeVal → MemoryStats → MemoryStats
count_usage tv s = record s {
  memory_usage = update s.memory_usage tv.tv_sec s.total_remaining_size;
}

unfoldable pub count_freed : Option MemoryOperation → MemoryStats → MemoryStats
unfolding count_free_size
count_freed none s = s
count_freed (some f) s = count_free_size f.alloc_size s

-- The statistics of `addMemoryOperation`, with the operation that was freed.
unfoldable pub count_memory_operation :
    MemoryOperation → Option MemoryOperation → MemoryStats → MemoryStats
count_memory_operation o freed s =
    let s1 = count_alloc_size o.alloc_size (count_arrival o.tv_operation s) in
    let s2 = count_freed freed s1 in
    count_remaining (count_operation o.msg_code o.free_ptr (count_usage o.tv_operation s2))
