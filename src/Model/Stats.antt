-- ===== src/Model/Stats.antt =====
-- server/Model/MemoryStats.cpp. The counters are `int` patterns of 32 bits.
use aleakd.Base.{ℕ}
use aleakd.Model.Records.{TimeVal, timer_clear}
use aleakd.Model.Usage.{MemoryUsage, new_memory_usage, clear}

pub record MemoryStats : Type 0 where
  pub message_count : ℕ
  pub tv_start_time : TimeVal
  pub tv_last_time : TimeVal
  pub memory_operation_count : ℕ
  pub memory_operation_size : ℕ
  pub total_alloc_count : ℕ
  pub total_alloc_size : ℕ
  pub total_free_count : ℕ
  pub total_free_size : ℕ
  pub total_remaining_count : ℕ
  pub total_remaining_size : ℕ
  pub peak_remaining_size : ℕ
  pub memory_usage : MemoryUsage
  pub malloc_count : ℕ
  pub realloc_count : ℕ
  pub calloc_count : ℕ
  pub posix_memalign_count : ℕ
  pub aligned_alloc_count : ℕ
  pub mem_align_count : ℕ
  pub valloc_count : ℕ
  pub pvalloc_count : ℕ
  pub free_count : ℕ

-- `MemoryStats::MemoryStats()`
abbrev pub new_memory_stats : MemoryStats
new_memory_stats = record {
  message_count = 0;
  tv_start_time = timer_clear;
  tv_last_time = timer_clear;
  memory_operation_count = 0;
  memory_operation_size = 0;
  total_alloc_count = 0;
  total_alloc_size = 0;
  total_free_count = 0;
  total_free_size = 0;
  total_remaining_count = 0;
  total_remaining_size = 0;
  peak_remaining_size = 0;
  memory_usage = new_memory_usage;
  malloc_count = 0;
  realloc_count = 0;
  calloc_count = 0;
  posix_memalign_count = 0;
  aligned_alloc_count = 0;
  mem_align_count = 0;
  valloc_count = 0;
  pvalloc_count = 0;
  free_count = 0;
}

-- `MemoryStats::reset`, which assigns every field but `m_iPeakRemainingSize`.
unfoldable pub reset : MemoryStats → MemoryStats
unfolding clear
reset s = record s {
  message_count = 0;
  tv_start_time = timer_clear;
  tv_last_time = timer_clear;
  memory_operation_count = 0;
  memory_operation_size = 0;
  total_alloc_count = 0;
  total_alloc_size = 0;
  total_free_count = 0;
  total_free_size = 0;
  total_remaining_count = 0;
  total_remaining_size = 0;
  malloc_count = 0;
  realloc_count = 0;
  calloc_count = 0;
  posix_memalign_count = 0;
  aligned_alloc_count = 0;
  mem_align_count = 0;
  valloc_count = 0;
  pvalloc_count = 0;
  free_count = 0;
  memory_usage = clear s.memory_usage;
}
