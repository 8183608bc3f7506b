-- ===== src/Server/Handler.antt =====
-- server/Server/IMemOpRcptServerHandler: what the receiver calls when a message has arrived. The
-- handler's own state is a parameter, so any controller can stand behind it.
use aleakd.Base.{ℕ, Option, none, some}
use aleakd.Model.Records.{MemoryOperation, ThreadOperation, Backtrace, SymbolInfos}

pub record Handler (H : Type 0) : Type 0 where
  pub on_new_connection : H → H
  pub on_memory_operation_received : MemoryOperation → H → H
  pub on_thread_operation_received : ThreadOperation → H → H
  pub on_backtrace_received : Backtrace → H → H
  pub on_symbol_infos_received : SymbolInfos → H → H

-- The methods of the base class do nothing.
abbrev pub base_handler : {H : Type 0} → Handler H
base_handler = record {
  on_new_connection = λ s. s;
  on_memory_operation_received = λ _ s. s;
  on_thread_operation_received = λ _ s. s;
  on_backtrace_received = λ _ s. s;
  on_symbol_infos_received = λ _ s. s;
}

-- The fields of `MemOpRcptServer` that the processing of messages touches. `msg_count` is an
-- `int` pattern; `handler_state` is the state of the object that `m_pHandler` points to.
pub record Server (H : Type 0) : Type 0 where
  pub msg_count : ℕ
  pub handler : Option (Handler H)
  pub handler_state : H

-- `if (m_pHandler) { m_pHandler->…; }`
abbrev pub notify : {H : Type 0} → (Handler H → H → H) → Server H → Server H
notify call s = elim s.handler [
  | none ↦ s
  | some h ↦ record s { handler_state = call h s.handler_state }
]
