-- ===== src/Model/Records.antt =====
-- The classes of server/Model that are plain data, with their constructors: MemoryOperation,
-- ThreadOperation, Backtrace, SymbolInfos and ThreadInfos.
use aleakd.Base.{ℕ, Bool, false, Option, none, List, []}
use aleakd.Shared.Codes.{MsgCode}

-- `struct timeval`
pub record TimeVal : Type 0 where
  pub tv_sec : ℕ
  pub tv_usec : ℕ

-- `timerclear`
abbrev pub timer_clear : TimeVal
timer_clear = record { tv_sec = 0; tv_usec = 0 }

pub record Backtrace : Type 0 where
  pub origin_msg_num : ℕ
  pub list_addr : List ℕ

pub record MemoryOperation : Type 0 where
  pub tv_operation : TimeVal
  pub msg_num : ℕ
  pub msg_code : MsgCode
  pub caller_thread_id : ℕ
  pub alloc_size : ℕ
  pub alloc_ptr : ℕ
  pub alloc_num : ℕ
  pub free_ptr : ℕ
  pub freed : Bool
  pub back_trace : Option Backtrace

pub record ThreadOperation : Type 0 where
  pub tv_operation : TimeVal
  pub msg_num : ℕ
  pub msg_code : MsgCode
  pub caller_thread_id : ℕ
  pub thread_id : ℕ
  pub thread_name : List ℕ

pub record SymbolInfos : Type 0 where
  pub addr : ℕ
  pub object_name : List ℕ
  pub object_addr : ℕ
  pub symbol_name : List ℕ
  pub symbol_addr : ℕ

pub record ThreadInfos : Type 0 where
  pub thread_id : ℕ
  pub thread_name : List ℕ
  pub creation_msg_num : ℕ
  pub last_alloc_msg_num : ℕ
  pub tv_creation : TimeVal
  pub tv_termination : TimeVal
  pub is_terminated : Bool
  pub current_alloc_count : ℕ
  pub current_size : ℕ
  pub total_alloc_count : ℕ
  pub peak_size : ℕ

-- `MemoryOperation::MemoryOperation()`
abbrev pub new_memory_operation : MemoryOperation
new_memory_operation = record {
  tv_operation = timer_clear;
  msg_num = 0;
  msg_code = MsgCode.unknown;
  caller_thread_id = 0;
  alloc_size = 0;
  alloc_ptr = 0;
  alloc_num = 0;
  free_ptr = 0;
  freed = false;
  back_trace = none;
}

-- `ThreadInfos::ThreadInfos()`
abbrev pub new_thread_infos : ThreadInfos
new_thread_infos = record {
  thread_id = 0;
  thread_name = [];
  creation_msg_num = 0;
  last_alloc_msg_num = 0;
  tv_creation = timer_clear;
  tv_termination = timer_clear;
  is_terminated = false;
  current_alloc_count = 0;
  current_size = 0;
  total_alloc_count = 0;
  peak_size = 0;
}
