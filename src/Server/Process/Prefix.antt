-- ===== src/Server/Process/Prefix.antt =====
-- `doProcessMsg` of MemOpRcptServer.cpp on the first bytes of a message of the client, before the rest
-- has arrived.
use aleakd.Base.{
  false, ℕ, ◌+◌, ◌≤◌, ◌<◌, ◌≡◌, inl, inr, refl, sym, ap, ◌∙◌, pos, List, ◌++◌, append_assoc, length,
  drop, length-drop, drop-append, ltb, ltb→ge, Bool-cases, arith,
}
use aleakd.Shared.Wire.{le_bytes, read_le, read_le-append, read_le-le_bytes, drop-le_bytes}
use aleakd.Shared.Messages.{
  Header, Message, HeaderFits, message_bytes, header_bytes, data_bytes, header, read_header,
}
use aleakd.Shared.Messages.Layout.{read_header-append, read_header-bytes}
use aleakd.Server.Handler.{Server}
use aleakd.Server.Process.{
  returned, ended, process_msg, process_msg_v1, process_blocks, add_version, memory_block,
  thread_block, symbolinfos_block,
}
use aleakd.Server.Process.Decode.{IsWellSent, needed}
use aleakd.Server.Process.Decode.Blocks.{
  app-skip, memory-skip, thread-skip, backtrace-skip, backtrace-hold,
}

module _ {H : Type 0} (s : Server H) where
  memory-hold :
      (h : Header) (buf : List ℕ) (n : ℕ)
      → 10 ≤ h.msg_code
      → h.msg_code < 20
      → length buf < n + 28
      → memory_block h buf n s ≡ ended (returned (pos 0) s)
  unfolding memory_block
  memory-hold h buf n low high short = ground arith

  thread-hold :
      (h : Header) (buf : List ℕ) (n : ℕ)
      → 30 ≤ h.msg_code
      → h.msg_code < 40
      → length buf < n + 32
      → thread_block h buf n s ≡ ended (returned (pos 0) s)
  unfolding thread_block
  thread-hold h buf n low high short = ground arith

  symbolinfos-hold :
      (h : Header) (buf : List ℕ) (n : ℕ)
      → 50 ≤ h.msg_code
      → h.msg_code < 60
      → length buf < n + 376
      → symbolinfos_block h buf n s ≡ ended (returned (pos 0) s)
  unfolding symbolinfos_block
  symbolinfos-hold h buf n low high short = ground arith

  -- The header is there, and not all of what the message needs.
  blocks-hold :
      (m : Message) (b : List ℕ)
      → IsWellSent m
      → 29 ≤ length b
      → 2 + length b < needed m
      → process_blocks (header m) b s ≡ returned (pos 0) s
  unfolding process_blocks message_bytes
  blocks-hold (Message.app h) b w room short = absurd (omega arith)
  blocks-hold (Message.memory h d) b w room short =
      rw (app-skip s h 29 (omega arith), memory-hold h b 29 w.2 w.3 (omega arith))
  blocks-hold (Message.thread h d) b w room short = rw (
    app-skip s h 29 (omega arith),
    memory-skip s h b 29 (inr (omega arith)),
    thread-hold h b 29 w.2 w.3 (omega arith),
  )
  blocks-hold (Message.backtrace h d) b w room short = rw (
    app-skip s h 29 (omega arith),
    memory-skip s h b 29 (inr (omega arith)),
    thread-skip s h b 29 (inr (omega arith)),
    backtrace-hold s h d b 29 w (omega arith),
  )
  blocks-hold (Message.symbolinfos h d) b w room short = rw (
    app-skip s h 29 (omega arith),
    memory-skip s h b 29 (inr (omega arith)),
    thread-skip s h b 29 (inr (omega arith)),
    backtrace-skip s h b 29 (inr (omega arith)),
    symbolinfos-hold h b 29 w.2 w.3 (omega arith),
  )

  v1-hold :
      (m : Message) (b q rest : List ℕ)
      → IsWellSent m
      → HeaderFits (header m)
      → b ++ q ≡ header_bytes (header m) ++ rest
      → 2 + length b < needed m
      → process_msg_v1 s b ≡ returned (pos 0) s
  unfolding process_msg_v1
  v1-hold m b q rest w fits parts short = elim (Bool-cases (ltb (length b) 29)) [
    | inl few ↦ rw few refl
    | inr room ↦ rw room (
        ap (λ h. process_blocks h b s)
          (sym (read_header-append b q (ltb→ge (length b) 29 room))
            ∙ ap read_header parts
            ∙ read_header-bytes (header m) rest fits)
        ∙ blocks-hold m b w (ltb→ge (length b) 29 room) short)
  ]

  header-fits : (m : Message) → IsWellSent m → HeaderFits (header m)
  unfolding message_bytes
  header-fits (Message.app h) w = w.0
  header-fits (Message.memory h d) w = w.0
  header-fits (Message.thread h d) w = w.0
  header-fits (Message.backtrace h d) w = w.0
  header-fits (Message.symbolinfos h d) w = w.0

  -- The first bytes of a message, fewer than the server wants to see for it: nothing is delivered, and
  -- the result 0 asks for more.
  pub process_msg-prefix :
      (m : Message) (p q rest : List ℕ)
      → IsWellSent m
      → p ++ q ≡ message_bytes m ++ rest
      → length p < needed m
      → process_msg s p ≡ returned (pos 0) s
  unfolding process_msg add_version message_bytes
  process_msg-prefix m p q rest w parts short = elim (Bool-cases (ltb (length p) 2)) [
    | inl few ↦ rw few refl
    | inr room ↦ rw (
      room,
      sym (read_le-append 2 p q (two room))
          ∙ ap (read_le 2) whole
          ∙ read_le-le_bytes 2 1 behind (omega arith),
      v1-hold m (drop 2 p) q (data_bytes m ++ rest) w (header-fits m w)
          (sym (drop-append 2 p q (two room))
            ∙ ap (drop 2) whole
            ∙ drop-le_bytes 2 1 behind
            ∙ append_assoc (header_bytes (header m)) (data_bytes m) rest)
          (omega (arith, length-drop 2 p, two room)),
    )
  ]
    where
      behind : List ℕ
      behind = (header_bytes (header m) ++ data_bytes m) ++ rest

      whole : p ++ q ≡ le_bytes 2 1 ++ behind
      whole = parts ∙ append_assoc (le_bytes 2 1) (header_bytes (header m) ++ data_bytes m) rest

      two : ltb (length p) 2 ≡ false → 2 ≤ length p
      two = ltb→ge (length p) 2
