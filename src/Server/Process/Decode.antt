-- ===== src/Server/Process/Decode.antt =====
-- `doProcessMsg` of MemOpRcptServer.cpp on a message of the client: what it delivers and how many
-- bytes it takes.
pub mod Blocks
pub mod Reply
use aleakd.Base.{
  ℕ, zero, suc, ◌+◌, ◌-◌, ◌≤◌, ◌<◌, ◌≡◌, ◌⊎◌, inl, inr, refl, sym, ap, ◌∙◌, Bool, true, false, ◌&&◌,
  ℤ, pos, negsuc, Option, none, some, List, [], ◌∷◌, ◌++◌, append_assoc, ltb, leb, ◌==◌,
  if◌then◌else◌, length, take, drop, length-append, drop-append_exact, ge→ltb, arith,
}
use aleakd.Shared.Codes.{MsgCode, code, msg_version}
use aleakd.Shared.Wire.{le_bytes, read_le, length-le_bytes, read_le-le_bytes, drop-le_bytes}
use aleakd.Shared.Messages.{
  Header, MemoryData, ThreadData, BacktraceData, SymbolInfosData, Message, HeaderFits, MemoryFits,
  ThreadFits, BacktraceFits, SymbolInfosFits, header_bytes, data_bytes, memory_bytes, thread_bytes,
  backtrace_bytes, symbolinfos_bytes, message_bytes, version_size, header_size, backtrace_max_size,
  header,
}
use aleakd.Shared.Messages.Layout.{
  length-header_bytes, length-memory_bytes, length-thread_bytes, length-backtrace_bytes,
  length-symbolinfos_bytes, read_header-bytes, read_memory-bytes, read_thread-bytes,
  read_backtrace-bytes, read_symbolinfos-bytes,
}
use aleakd.Model.Records.{Backtrace}
use aleakd.Server.Handler.{Handler, Server, notify}
use aleakd.Server.Process.{
  Result, returned, Flow, next, ended, in_range, fault, Fault, process_msg, process_msg_v1,
  process_blocks, add_version, app_block, memory_block, thread_block, backtrace_block,
  symbolinfos_block, c_string, memory_operation, thread_operation, symbol_infos,
}

-- The text of a terminated array.
abbrev pub c_text : List ℕ → List ℕ
c_text bs = elim (c_string bs) [ none ↦ [] | some t ↦ t ]

abbrev pub IsTerminated : List ℕ → Type 0
IsTerminated bs = c_string bs ≡ some (c_text bs)

-- A message as the client builds it: the fields fit their types, the code is of the message's
-- kind, the names end inside their arrays and the trace is no longer than its array.
abbrev pub IsWellSent : Message → Type 0
IsWellSent (Message.app h) = HeaderFits h × (h.msg_code ≡ 1)
IsWellSent (Message.memory h d) =
    HeaderFits h × MemoryFits d × (10 ≤ h.msg_code) × (h.msg_code < 20)
IsWellSent (Message.thread h d) =
    HeaderFits h × ThreadFits d × (30 ≤ h.msg_code) × (h.msg_code < 40) × IsTerminated d.thread_name
IsWellSent (Message.backtrace h d) =
    HeaderFits h
    × BacktraceFits d
    × (40 ≤ h.msg_code)
    × (h.msg_code < 50)
    × (d.backtrace_size ≤ backtrace_max_size)
IsWellSent (Message.symbolinfos h d) =
    HeaderFits h
    × SymbolInfosFits d
    × (50 ≤ h.msg_code)
    × (h.msg_code < 60)
    × IsTerminated d.object_name
    × IsTerminated d.symbol_name

-- The size of a message: what the client passes to `servercomm_send_safe`.
abbrev pub msg_size : Message → ℕ
msg_size (Message.app h) = 31
msg_size (Message.memory h d) = 59
msg_size (Message.thread h d) = 63
msg_size (Message.backtrace h d) = 436
msg_size (Message.symbolinfos h d) = 407

-- The bytes that must be there for the server to take the message: its size, and 31 more behind
-- a backtrace.
abbrev pub needed : Message → ℕ
needed (Message.backtrace h d) = 467
needed m = msg_size m

abbrev pub trace_of : BacktraceData → Backtrace
trace_of d = record {
  origin_msg_num = d.origin_msg_num;
  list_addr = take d.backtrace_size d.list_addr;
}

module _ {H : Type 0} where
  -- What the handler is told of a message.
  abbrev pub deliver : Message → Server H → Server H
  deliver (Message.app h) s = notify (λ p. p.on_new_connection) (record s { msg_count = 0 })
  deliver (Message.memory h d) s =
      notify (λ p. p.on_memory_operation_received (memory_operation h d)) s
  deliver (Message.thread h d) s =
      notify (λ p. p.on_thread_operation_received (thread_operation h d (c_text d.thread_name))) s
  deliver (Message.backtrace h d) s = notify (λ p. p.on_backtrace_received (trace_of d)) s
  deliver (Message.symbolinfos h d) s =
      notify
        (λ p.
          p.on_symbol_infos_received (symbol_infos d (c_text d.object_name) (c_text d.symbol_name)))
        s

pub length-message_bytes : (m : Message) → IsWellSent m → length (message_bytes m) ≡ msg_size m
unfolding message_bytes
length-message_bytes (Message.app h) w =
    simp (length-append, length-le_bytes, length-header_bytes) (omega arith)
length-message_bytes (Message.memory h d) w =
    simp (length-append, length-le_bytes, length-header_bytes, length-memory_bytes) (omega arith)
length-message_bytes (Message.thread h d) w =
    simp (length-append, length-le_bytes, length-header_bytes, length-thread_bytes d w.1)
      (omega arith)
length-message_bytes (Message.backtrace h d) w =
    simp (length-append, length-le_bytes, length-header_bytes, length-backtrace_bytes d w.1)
      (omega arith)
length-message_bytes (Message.symbolinfos h d) w =
    simp (length-append, length-le_bytes, length-header_bytes, length-symbolinfos_bytes d w.1)
      (omega arith)
