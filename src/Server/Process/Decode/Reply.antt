-- ===== src/Server/Process/Decode/Reply.antt =====
-- `doProcessMsg` of MemOpRcptServer.cpp on the bytes of a message of the client.
use aleakd.Base.{
  ℕ, ◌+◌, ◌≤◌, ◌<◌, ◌≡◌, inl, inr, sym, ap, ◌∙◌, ℤ, pos, List, ◌++◌, append_assoc, ltb,
  if◌then◌else◌, length, drop, length-append, drop-append_exact, ge→ltb, Bool-cases, ltb→lt, ltb→ge,
  arith,
}
use aleakd.Shared.Codes.{msg_version}
use aleakd.Shared.Wire.{le_bytes, length-le_bytes, read_le-le_bytes, drop-le_bytes}
use aleakd.Shared.Messages.{
  Header, MemoryData, ThreadData, BacktraceData, SymbolInfosData, Message, HeaderFits, header_bytes,
  data_bytes, memory_bytes, thread_bytes, backtrace_bytes, symbolinfos_bytes, message_bytes,
  version_size, header, header,
}
use aleakd.Shared.Messages.Layout.{
  length-header_bytes, length-memory_bytes, length-thread_bytes, length-backtrace_bytes,
  length-symbolinfos_bytes, read_header-bytes, read_memory-bytes, read_thread-bytes,
  read_backtrace-bytes, read_symbolinfos-bytes,
}
use aleakd.Server.Handler.{Server}
use aleakd.Server.Process.{
  read_backtrace, read_symbolinfos, read_thread, read_memory, Result, returned, process_msg,
  process_msg_v1, process_blocks, add_version,
}
use aleakd.Server.Process.Decode.{IsWellSent, deliver, msg_size}
use aleakd.Server.Process.Decode.Blocks.{
  app-skip, memory-skip, thread-skip, backtrace-skip, symbolinfos-skip, app-init, memory-take,
  thread-take, backtrace-take, backtrace-hold, symbolinfos-take,
}

module _ {H : Type 0} (s : Server H) where
  msg-version :
      (b : List ℕ)
      → process_msg s (le_bytes version_size msg_version ++ b) ≡ add_version (process_msg_v1 s b)
  unfolding process_msg
  msg-version b = rw (
    ge→ltb (length (le_bytes 2 1 ++ b)) 2
        (omega (arith, length-append (le_bytes 2 1) b, length-le_bytes 2 1)),
    read_le-le_bytes 2 1 b (omega arith),
    drop-le_bytes 2 1 b,
  )

  v1-header :
      (h : Header) (b : List ℕ)
      → HeaderFits h
      → process_msg_v1 s (header_bytes h ++ b) ≡ process_blocks h (header_bytes h ++ b) s
  unfolding process_msg_v1
  v1-header h b f = rw (
    ge→ltb (length (header_bytes h ++ b)) 29
        (omega (arith, length-append (header_bytes h) b, length-header_bytes h)),
    read_header-bytes h b f,
  )

  -- The bytes behind the header are the message's data, and they are all there.
  module _ (h : Header) (data_part rest : List ℕ) where
    abbrev buf : List ℕ
    buf = header_bytes h ++ (data_part ++ rest)

    behind : drop 29 buf ≡ data_part ++ rest
    behind = drop-append_exact 29 (header_bytes h) (data_part ++ rest) (sym (length-header_bytes h))

    size : length buf ≡ 29 + length data_part + length rest
    size = omega (
      arith,
      length-append (header_bytes h) (data_part ++ rest),
      length-append data_part rest,
      length-header_bytes h,
    )

  -- `doProcessMsg` on the bytes of one message, whatever follows.
  abbrev pub reply : Message → List ℕ → Result H ℤ
  reply (Message.backtrace h d) rest =
      if ltb (length rest) 31
      then returned (pos 0) s
      else returned (pos 436) (deliver (Message.backtrace h d) s)
  reply m rest = returned (pos (msg_size m)) (deliver m s)

  blocks-app :
      (h : Header) (rest : List ℕ)
      → IsWellSent (Message.app h)
      → process_blocks h (header_bytes h ++ rest) s ≡ returned (pos 29) (deliver (Message.app h) s)
  unfolding process_blocks
  blocks-app h rest w =
      let s' = deliver (Message.app h) s in
      let b = header_bytes h ++ rest in
      rw (
        app-init s h 29 w.1,
        memory-skip s' h b 29 (inl (omega arith)),
        thread-skip s' h b 29 (inl (omega arith)),
        backtrace-skip s' h b 29 (inl (omega arith)),
        symbolinfos-skip s' h b 29 (inl (omega arith)),
      )

  blocks-memory :
      (h : Header) (d : MemoryData) (rest : List ℕ)
      → IsWellSent (Message.memory h d)
      → process_blocks h (header_bytes h ++ (memory_bytes d ++ rest)) s
        ≡ returned (pos 57) (deliver (Message.memory h d) s)
  unfolding process_blocks
  blocks-memory h d rest w =
      let s' = deliver (Message.memory h d) s in
      let b = header_bytes h ++ (memory_bytes d ++ rest) in
      rw (
        app-skip s h 29 w.2,
        memory-take s h d b 29 w
            (omega (arith, size h (memory_bytes d) rest, length-memory_bytes d))
            (ap read_memory (behind h (memory_bytes d) rest) ∙ read_memory-bytes d rest w.1),
        thread-skip s' h b 57 (inl (omega arith)),
        backtrace-skip s' h b 57 (inl (omega arith)),
        symbolinfos-skip s' h b 57 (inl (omega arith)),
      )

  blocks-thread :
      (h : Header) (d : ThreadData) (rest : List ℕ)
      → IsWellSent (Message.thread h d)
      → process_blocks h (header_bytes h ++ (thread_bytes d ++ rest)) s
        ≡ returned (pos 61) (deliver (Message.thread h d) s)
  unfolding process_blocks
  blocks-thread h d rest w =
      let s' = deliver (Message.thread h d) s in
      let b = header_bytes h ++ (thread_bytes d ++ rest) in
      rw (
        app-skip s h 29 (omega arith),
        memory-skip s h b 29 (inr (omega arith)),
        thread-take s h d b 29 w
            (omega (arith, size h (thread_bytes d) rest, length-thread_bytes d w.1))
            (ap read_thread (behind h (thread_bytes d) rest) ∙ read_thread-bytes d rest w.1),
        backtrace-skip s' h b 61 (inl (omega arith)),
        symbolinfos-skip s' h b 61 (inl (omega arith)),
      )

  blocks-backtrace_take :
      (h : Header) (d : BacktraceData) (rest : List ℕ)
      → IsWellSent (Message.backtrace h d)
      → 31 ≤ length rest
      → process_blocks h (header_bytes h ++ (backtrace_bytes d ++ rest)) s
        ≡ returned (pos 434) (deliver (Message.backtrace h d) s)
  unfolding process_blocks
  blocks-backtrace_take h d rest w more =
      let s' = deliver (Message.backtrace h d) s in
      let b = header_bytes h ++ (backtrace_bytes d ++ rest) in
      rw (
        app-skip s h 29 (omega arith),
        memory-skip s h b 29 (inr (omega arith)),
        thread-skip s h b 29 (inr (omega arith)),
        backtrace-take s h d b 29 w
            (omega (arith, size h (backtrace_bytes d) rest, length-backtrace_bytes d w.1))
            (ap read_backtrace (behind h (backtrace_bytes d) rest)
              ∙ read_backtrace-bytes d rest w.1),
        symbolinfos-skip s' h b 434 (inl (omega arith)),
      )

  blocks-backtrace_hold :
      (h : Header) (d : BacktraceData) (rest : List ℕ)
      → IsWellSent (Message.backtrace h d)
      → length rest < 31
      → process_blocks h (header_bytes h ++ (backtrace_bytes d ++ rest)) s ≡ returned (pos 0) s
  unfolding process_blocks
  blocks-backtrace_hold h d rest w less =
      let b = header_bytes h ++ (backtrace_bytes d ++ rest) in
      rw (
        app-skip s h 29 (omega arith),
        memory-skip s h b 29 (inr (omega arith)),
        thread-skip s h b 29 (inr (omega arith)),
        backtrace-hold s h d b 29 w
            (omega (arith, size h (backtrace_bytes d) rest, length-backtrace_bytes d w.1)),
      )

  blocks-symbolinfos :
      (h : Header) (d : SymbolInfosData) (rest : List ℕ)
      → IsWellSent (Message.symbolinfos h d)
      → process_blocks h (header_bytes h ++ (symbolinfos_bytes d ++ rest)) s
        ≡ returned (pos 405) (deliver (Message.symbolinfos h d) s)
  unfolding process_blocks
  blocks-symbolinfos h d rest w =
      let b = header_bytes h ++ (symbolinfos_bytes d ++ rest) in
      rw (
        app-skip s h 29 (omega arith),
        memory-skip s h b 29 (inr (omega arith)),
        thread-skip s h b 29 (inr (omega arith)),
        backtrace-skip s h b 29 (inr (omega arith)),
        symbolinfos-take s h d b 29 w
            (omega (arith, size h (symbolinfos_bytes d) rest, length-symbolinfos_bytes d w.1))
            (ap read_symbolinfos (behind h (symbolinfos_bytes d) rest)
              ∙ read_symbolinfos-bytes d rest w.1),
      )

  version-msg :
      (m : Message) (rest : List ℕ)
      → HeaderFits (header m)
      → process_msg s (message_bytes m ++ rest)
        ≡ add_version
            (process_blocks (header m) (header_bytes (header m) ++ (data_bytes m ++ rest)) s)
  unfolding message_bytes
  version-msg m rest f =
      rw (append_assoc (le_bytes 2 1) (header_bytes (header m) ++ data_bytes m) rest) (
        rw (append_assoc (header_bytes (header m)) (data_bytes m) rest) (
          msg-version (header_bytes (header m) ++ (data_bytes m ++ rest))
          ∙ ap add_version (v1-header (header m) (data_bytes m ++ rest) f)))

  -- A message at the front of the buffer, as the client builds it, is delivered as it was sent,
  -- and its size is returned; a backtrace with fewer than 31 bytes behind it is left for later,
  -- with result 0.
  pub process_msg-message_bytes :
      (m : Message) (rest : List ℕ)
      → IsWellSent m
      → process_msg s (message_bytes m ++ rest) ≡ reply m rest
  unfolding add_version message_bytes
  process_msg-message_bytes (Message.app h) rest w =
      version-msg (Message.app h) rest w.0 ∙ ap add_version (blocks-app h rest w)
  process_msg-message_bytes (Message.memory h d) rest w =
      version-msg (Message.memory h d) rest w.0 ∙ ap add_version (blocks-memory h d rest w)
  process_msg-message_bytes (Message.thread h d) rest w =
      version-msg (Message.thread h d) rest w.0 ∙ ap add_version (blocks-thread h d rest w)
  process_msg-message_bytes (Message.backtrace h d) rest w =
      version-msg (Message.backtrace h d) rest w.0 ∙ elim (Bool-cases (ltb (length rest) 31)) [
        | inl less ↦
            rw less
              (ap add_version (blocks-backtrace_hold h d rest w (ltb→lt (length rest) 31 less)))
        | inr more ↦
            rw more
              (ap add_version (blocks-backtrace_take h d rest w (ltb→ge (length rest) 31 more)))
      ]
  process_msg-message_bytes (Message.symbolinfos h d) rest w =
      version-msg (Message.symbolinfos h d) rest w.0
      ∙ ap add_version (blocks-symbolinfos h d rest w)
