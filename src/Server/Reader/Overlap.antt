-- ===== src/Server/Reader/Overlap.antt =====
-- The copy inside the buffer of `doReadMsg` of MemOpRcptServer.cpp, where its two parts overlap.
use aleakd.Base.{
  refl, ℕ, zero, suc, ◌+◌, ◌-◌, ◌≤◌, ◌<◌, ◌≡◌, List, [], ◌∷◌, ◌++◌, length, length-append, pos,
  arith, lt→ltb, ge→ltb,
}
use aleakd.Shared.Messages.{Header, BacktraceData, Message, message_bytes}
use aleakd.Server.Handler.{Server}
use aleakd.Server.Process.{fault, overlapping_copy, returned, process_data_read}
use aleakd.Server.Process.Decode.{IsWellSent, length-message_bytes}
use aleakd.Server.Process.Stream.{AllWellSent, stream, process_data_read-held_backtrace}
use aleakd.Server.Reader.{Read, bytes, after_process, read_loop, do_read_msg}

module _ {H : Type 0} (s : Server H) (rs : List Read) where
  first-overlaps :
      (bs : List ℕ) (n : ℕ) (t : Server H)
      → 0 < n
      → n + n < length bs
      → length bs ≤ 8192
      → process_data_read s bs ≡ returned (pos n) t
      → do_read_msg s (bytes bs ∷ rs) ≡ fault overlapping_copy
  unfolding do_read_msg read_loop after_process
  first-overlaps [] n t some more fits e = absurd (omega arith)
  first-overlaps (b ∷ bs) zero t some more fits e = absurd (omega arith)
  first-overlaps (b ∷ bs) (suc n) t some more fits e =
      rw (ge→ltb 8192 (0 + length (b ∷ bs)) (omega arith))
        (rw e (rw (lt→ltb (suc n) (length (b ∷ bs) - suc n) (omega arith)) refl))

  -- A first read of at least one message and a backtrace behind, where the messages have fewer bytes than
  -- the backtrace, which is held back: the copy of it to the front of the buffer overlaps, and is
  -- undefined, whatever the later reads would give.
  pub do_read_msg-overlap :
      (ms : List Message) (h : Header) (d : BacktraceData)
      → AllWellSent ms
      → IsWellSent (Message.backtrace h d)
      → 0 < length (stream ms)
      → length (stream ms) < length (message_bytes (Message.backtrace h d))
      → do_read_msg s (bytes (stream ms ++ message_bytes (Message.backtrace h d)) ∷ rs)
        ≡ fault overlapping_copy
  do_read_msg-overlap ms h d w v some less =
      let trace : List ℕ = message_bytes (Message.backtrace h d) in
      let len : length (stream ms ++ trace) ≡ length (stream ms) + length trace =
        length-append (stream ms) trace in
      first-overlaps (stream ms ++ trace) (length (stream ms)) _ some (omega (arith, len))
        (omega (arith, len, length-message_bytes (Message.backtrace h d) v))
        (process_data_read-held_backtrace ms s w h d v)
