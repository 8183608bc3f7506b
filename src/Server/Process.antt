-- ===== src/Server/Process.antt =====
-- `doProcessMsgV1`, `doProcessMsg` and `doProcessDataRead` of MemOpRcptServer.cpp. A pointer with
-- the number of bytes behind it is the list of those bytes.
pub mod Decode
pub mod Bounds
pub mod Prefix
pub mod Stream
pub mod Held
pub mod Cut
use aleakd.Base.{
  ℕ, zero, suc, ◌+◌, ◌-◌, Bool, ◌&&◌, ℤ, pos, negsuc, Option, none, some, List, [], ◌∷◌, ltb, leb,
  ◌==◌, if◌then◌else◌, length, take, drop, add32, arith,
}
use aleakd.Shared.Codes.{MsgCode, code, of_code}
use aleakd.Shared.Wire.{read_le}
use aleakd.Shared.Messages.{
  Header, read_header, read_memory, read_thread, read_backtrace, read_symbolinfos, version_size,
  header_size, memory_data_size, thread_data_size, backtrace_data_size, backtrace_msg_size,
  symbolinfos_data_size, backtrace_max_size, MemoryData, ThreadData, SymbolInfosData,
}
use aleakd.Model.Records.{
  TimeVal, MemoryOperation, ThreadOperation, Backtrace, SymbolInfos, new_memory_operation,
}
use aleakd.Server.Handler.{Server, notify}

-- What the language leaves undefined: an access past the end of an object, and a `memcpy` between two
-- parts of a buffer that overlap.
pub data Fault : Type 0 where
  read_past_end write_past_end overlapping_copy : Fault

-- How a method ends. The loops of the receiver take fuel.
pub data Result (H A : Type 0) : Type 0 where
  returned : A → Server H → Result H A
  fault : Fault → Result H A
  out_of_fuel : Result H A

-- Between two of the blocks of `doProcessMsgV1`: `iSizeRead` and the object, or the method has
-- ended.
pub data Flow (H : Type 0) : Type 0 where
  next : ℕ → Server H → Flow H
  ended : Result H ℤ → Flow H

abbrev pub then_block : {H : Type 0} → Flow H → (ℕ → Server H → Flow H) → Flow H
then_block (next n s) k = k n s
then_block (ended r) k = ended r

-- `return iSizeRead;`
abbrev pub finish : {H : Type 0} → Flow H → Result H ℤ
finish (next n s) = returned (pos n) s
finish (ended r) = r

abbrev pub in_range : ℕ → ℕ → ℕ → Bool
in_range lo hi c = leb lo c && ltb c hi

-- A `char` array read as a C string: the bytes before the first zero byte. With none in the
-- array the read goes on past its end.
unfoldable pub c_string : List ℕ → Option (List ℕ)
c_string [] = none
c_string (b ∷ bs) =
    if b == 0 then some [] else elim (c_string bs) [ none ↦ none | some t ↦ some (b ∷ t) ]

abbrev pub time_of : Header → TimeVal
time_of h = record { tv_sec = h.time_sec; tv_usec = h.time_usec }

abbrev pub memory_operation : Header → MemoryData → MemoryOperation
memory_operation h d = record new_memory_operation {
  tv_operation = time_of h;
  msg_num = h.msg_num;
  msg_code = of_code h.msg_code;
  caller_thread_id = h.thread_id;
  alloc_size = d.alloc_size;
  alloc_ptr = d.alloc_ptr;
  alloc_num = d.alloc_num;
  free_ptr = d.free_ptr;
}

abbrev pub thread_operation : Header → ThreadData → List ℕ → ThreadOperation
thread_operation h d name = record {
  tv_operation = time_of h;
  msg_num = h.msg_num;
  msg_code = of_code h.msg_code;
  caller_thread_id = h.thread_id;
  thread_id = d.thread_id;
  thread_name = name;
}

abbrev pub symbol_infos : SymbolInfosData → List ℕ → List ℕ → SymbolInfos
symbol_infos d object symbol = record {
  addr = d.addr;
  object_name = object;
  object_addr = d.object_addr;
  symbol_name = symbol;
  symbol_addr = d.symbol_addr;
}

module _ {H : Type 0} where
  -- "Application message"
  unfoldable pub app_block : Header → ℕ → Server H → Flow H
  app_block h n s =
      if in_range 0 10 h.msg_code && (h.msg_code == code MsgCode.init)
      then next n (notify (λ p. p.on_new_connection) (record s { msg_count = 0 }))
      else next n s

  -- "Memory operation"
  unfoldable pub memory_block : Header → List ℕ → ℕ → Server H → Flow H
  memory_block h buf n s =
      let d = read_memory (drop n buf) in
      if in_range 10 20 h.msg_code
      then if ltb (length buf - n) memory_data_size
        then ended (returned (pos 0) s)
        else next (n + memory_data_size)
            (notify (λ p. p.on_memory_operation_received (memory_operation h d)) s)
      else next n s

  thread_named : Header → ThreadData → ℕ → Server H → Option (List ℕ) → Flow H
  thread_named h d n s none = ended (fault read_past_end)
  thread_named h d n s (some name) =
      next n (notify (λ p. p.on_thread_operation_received (thread_operation h d name)) s)

  -- "Thread operation"
  unfoldable pub thread_block : Header → List ℕ → ℕ → Server H → Flow H
  unfolding thread_named
  thread_block h buf n s =
      let d = read_thread (drop n buf) in
      if in_range 30 40 h.msg_code
      then if ltb (length buf - n) thread_data_size
        then ended (returned (pos 0) s)
        else thread_named h d (n + thread_data_size) s (c_string d.thread_name)
      else next n s

  -- "Backtrace operation": the guard asks for a whole `ServerMsgBacktraceV1`, and the loop over
  -- `backtrace_size` stays inside the array only up to its 50 addresses.
  unfoldable pub backtrace_block : Header → List ℕ → ℕ → Server H → Flow H
  backtrace_block h buf n s =
      let d = read_backtrace (drop n buf) in
      let trace : Backtrace = record {
        origin_msg_num = d.origin_msg_num;
        list_addr = take d.backtrace_size d.list_addr;
      } in
      if in_range 40 50 h.msg_code
      then if ltb (length buf - n) backtrace_msg_size
        then ended (returned (pos 0) s)
        else if ltb backtrace_max_size d.backtrace_size
        then ended (fault read_past_end)
        else next (n + backtrace_data_size) (notify (λ p. p.on_backtrace_received trace) s)
      else next n s

  symbols_named : SymbolInfosData → ℕ → Server H → Option (List ℕ) → Option (List ℕ) → Flow H
  symbols_named d n s (some object) (some symbol) =
      next n (notify (λ p. p.on_symbol_infos_received (symbol_infos d object symbol)) s)
  symbols_named d n s _ _ = ended (fault read_past_end)

  -- "Symbol infos operation"
  unfoldable pub symbolinfos_block : Header → List ℕ → ℕ → Server H → Flow H
  unfolding symbols_named
  symbolinfos_block h buf n s =
      let d = read_symbolinfos (drop n buf) in
      if in_range 50 60 h.msg_code
      then if ltb (length buf - n) symbolinfos_data_size
        then ended (returned (pos 0) s)
        else symbols_named d (n + symbolinfos_data_size) s (c_string d.object_name)
            (c_string d.symbol_name)
      else next n s

  -- The blocks in the order of the source.
  unfoldable pub process_blocks : Header → List ℕ → Server H → Result H ℤ
  process_blocks h buf s = finish (
      then_block
        (then_block
          (then_block (then_block (app_block h header_size s) (memory_block h buf))
            (thread_block h buf))
          (backtrace_block h buf))
        (symbolinfos_block h buf))

  -- `doProcessMsgV1`
  unfoldable pub process_msg_v1 : Server H → List ℕ → Result H ℤ
  process_msg_v1 s buf =
      if ltb (length buf) header_size
      then returned (pos 0) s
      else process_blocks (read_header buf) buf s

  -- What `doProcessMsg` adds to a positive result: the size of the version field.
  unfoldable pub add_version : Result H ℤ → Result H ℤ
  add_version (returned (pos (suc n)) s) = returned (pos (version_size + suc n)) s
  add_version r = r

  -- `doProcessMsg`
  unfoldable pub process_msg : Server H → List ℕ → Result H ℤ
  process_msg s buf =
      if ltb (length buf) version_size
      then returned (pos 0) s
      else if read_le version_size buf == 1
      then add_version (process_msg_v1 s (drop version_size buf))
      else returned (negsuc 0) s

  -- `m_iMsgCount++`
  abbrev pub count_msg : Server H → Server H
  count_msg s = record s { msg_count = add32 s.msg_count 1 }

  -- One round of the loop of `doProcessDataRead` after its call of `doProcessMsg`: `size_read` bytes
  -- are done, `buf` is the data behind them, `continue` is the rest of the loop.
  unfoldable pub after_msg :
      (ℕ → List ℕ → Server H → Result H ℤ) → ℕ → List ℕ → Result H ℤ → Result H ℤ
  after_msg continue size_read buf (returned (pos zero) s) = returned (pos size_read) s
  after_msg continue size_read buf (returned (pos (suc n)) s) =
      continue (size_read + suc n) (drop (suc n) buf) (count_msg s)
  after_msg continue size_read buf (returned (negsuc n) s) = returned (negsuc n) s
  after_msg continue size_read buf (fault f) = fault f
  after_msg continue size_read buf out_of_fuel = out_of_fuel

  -- The loop. Every round takes at least one byte, so `length buf + 1` rounds are enough. `iRes` and
  -- `iSizeRead` are ints, which do not overflow: `doReadMsg`, the only caller, passes 8192 bytes at most.
  unfoldable pub process_loop : ℕ → ℕ → List ℕ → Server H → Result H ℤ
  process_loop zero size_read buf s = out_of_fuel
  process_loop (suc fuel) size_read buf s =
      if ltb 0 (length buf)
      then after_msg (process_loop fuel) size_read buf (process_msg s buf)
      else returned (pos size_read) s

  -- `doProcessDataRead`
  unfoldable pub process_data_read : Server H → List ℕ → Result H ℤ
  process_data_read s buf = process_loop (suc (length buf)) 0 buf s
