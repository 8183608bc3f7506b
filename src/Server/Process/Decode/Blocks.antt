-- ===== src/Server/Process/Decode/Blocks.antt =====
-- The blocks of `doProcessMsgV1`, one by one: a block passes over the codes of the others, and takes
-- the message that is its own.
use aleakd.Base.{ℕ, ◌+◌, ◌≤◌, ◌<◌, ◌≡◌, ◌⊎◌, inl, inr, pos, List, length, drop, arith}
use aleakd.Shared.Codes.{code}
use aleakd.Shared.Messages.{Header, MemoryData, ThreadData, BacktraceData, SymbolInfosData, Message}
use aleakd.Server.Handler.{Server}
use aleakd.Server.Process.{
  read_backtrace, read_symbolinfos, read_thread, read_memory, returned, next, ended, app_block,
  memory_block, thread_block, backtrace_block, symbolinfos_block,
}
use aleakd.Server.Process.Decode.{IsWellSent, deliver}

module _ {H : Type 0} (s : Server H) where
  pub app-skip : (h : Header) (n : ℕ) → 10 ≤ h.msg_code → app_block h n s ≡ next n s
  unfolding app_block
  app-skip h n c = ground arith

  pub memory-skip :
      (h : Header) (buf : List ℕ) (n : ℕ)
      → (h.msg_code < 10) ⊎ (20 ≤ h.msg_code)
      → memory_block h buf n s ≡ next n s
  unfolding memory_block
  memory-skip h buf n c = ground arith

  pub thread-skip :
      (h : Header) (buf : List ℕ) (n : ℕ)
      → (h.msg_code < 30) ⊎ (40 ≤ h.msg_code)
      → thread_block h buf n s ≡ next n s
  unfolding thread_block
  thread-skip h buf n (inl c) = ground arith
  thread-skip h buf n (inr c) = ground arith

  pub backtrace-skip :
      (h : Header) (buf : List ℕ) (n : ℕ)
      → (h.msg_code < 40) ⊎ (50 ≤ h.msg_code)
      → backtrace_block h buf n s ≡ next n s
  unfolding backtrace_block
  backtrace-skip h buf n c = ground arith

  pub symbolinfos-skip :
      (h : Header) (buf : List ℕ) (n : ℕ)
      → (h.msg_code < 50) ⊎ (60 ≤ h.msg_code)
      → symbolinfos_block h buf n s ≡ next n s
  unfolding symbolinfos_block
  symbolinfos-skip h buf n c = ground arith

  pub app-init :
      (h : Header) (n : ℕ) → h.msg_code ≡ 1 → app_block h n s ≡ next n (deliver (Message.app h) s)
  unfolding app_block code
  app-init h n c = ground arith

  pub memory-take :
      (h : Header) (d : MemoryData) (buf : List ℕ) (n : ℕ)
      → IsWellSent (Message.memory h d)
      → n + 28 ≤ length buf
      → read_memory (drop n buf) ≡ d
      → memory_block h buf n s ≡ next (n + 28) (deliver (Message.memory h d) s)
  unfolding memory_block
  memory-take h d buf n w room e = ground arith

  pub thread-take :
      (h : Header) (d : ThreadData) (buf : List ℕ) (n : ℕ)
      → IsWellSent (Message.thread h d)
      → n + 32 ≤ length buf
      → read_thread (drop n buf) ≡ d
      → thread_block h buf n s ≡ next (n + 32) (deliver (Message.thread h d) s)
  unfolding thread_block
  thread-take h d buf n w room e = rw e (rw w.4 (ground arith))

  pub backtrace-take :
      (h : Header) (d : BacktraceData) (buf : List ℕ) (n : ℕ)
      → IsWellSent (Message.backtrace h d)
      → n + 436 ≤ length buf
      → read_backtrace (drop n buf) ≡ d
      → backtrace_block h buf n s ≡ next (n + 405) (deliver (Message.backtrace h d) s)
  unfolding backtrace_block
  backtrace-take h d buf n w room e = rw e (ground arith)

  -- The guard counts a whole message, where only the data behind the header is still to come.
  pub backtrace-hold :
      (h : Header) (d : BacktraceData) (buf : List ℕ) (n : ℕ)
      → IsWellSent (Message.backtrace h d)
      → length buf < n + 436
      → backtrace_block h buf n s ≡ ended (returned (pos 0) s)
  unfolding backtrace_block
  backtrace-hold h d buf n w short = ground arith

  pub symbolinfos-take :
      (h : Header) (d : SymbolInfosData) (buf : List ℕ) (n : ℕ)
      → IsWellSent (Message.symbolinfos h d)
      → n + 376 ≤ length buf
      → read_symbolinfos (drop n buf) ≡ d
      → symbolinfos_block h buf n s ≡ next (n + 376) (deliver (Message.symbolinfos h d) s)
  unfolding symbolinfos_block
  symbolinfos-take h d buf n w room e = rw e (rw (w.4, w.5) (ground arith))
