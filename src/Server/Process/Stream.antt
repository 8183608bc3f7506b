-- ===== src/Server/Process/Stream.antt =====
-- `doProcessDataRead` of MemOpRcptServer.cpp on the messages of the client, one behind the other.
use native.Mathlib.Nat.{add-zero, zero-add}
use aleakd.Base.{
  ℕ, zero, suc, ◌+◌, ◌≤◌, ◌<◌, ◌≡◌, ◌⊎◌, inl, inr, refl, sym, ap, ◌∙◌, ℤ, pos, List, [], ◌∷◌, ◌++◌,
  append_assoc, append-nil, length, drop, length-append, drop-append_exact, lt→ltb, ge→ltb, arith,
}
use aleakd.Shared.Messages.{Header, BacktraceData, Message, message_bytes}
use aleakd.Server.Handler.{Server}
use aleakd.Server.Process.{
  Result, returned, process_msg, process_loop, process_data_read, after_msg, count_msg,
}
use aleakd.Server.Process.Decode.{IsWellSent, deliver, msg_size, needed, length-message_bytes}
use aleakd.Server.Process.Decode.Reply.{process_msg-message_bytes, reply}

-- The bytes of several messages.
unfoldable pub stream : List Message → List ℕ
stream [] = []
stream (m ∷ ms) = message_bytes m ++ stream ms

-- The server after several messages: each is delivered and counted, in order.
unfoldable pub handle_all : {H : Type 0} → List Message → Server H → Server H
handle_all [] s = s
handle_all (m ∷ ms) s = handle_all ms (count_msg (deliver m s))

-- Every message is as the client builds it, and has behind it what the server wants to see.
abbrev pub AreTaken : List Message → List ℕ → Type 0
AreTaken [] rest = Unit {0}
AreTaken (m ∷ ms) rest =
    IsWellSent m × (needed m ≤ msg_size m + length (stream ms ++ rest)) × AreTaken ms rest

-- What is left is no whole message.
abbrev pub IsPending : {H : Type 0} → Server H → List ℕ → Type 0
IsPending s rest = (rest ≡ []) ⊎ (process_msg s rest ≡ returned (pos 0) s)

pub msg_size_pos : (m : Message) → 0 < msg_size m
msg_size_pos (Message.app h) = omega arith
msg_size_pos (Message.memory h d) = omega arith
msg_size_pos (Message.thread h d) = omega arith
msg_size_pos (Message.backtrace h d) = omega arith
msg_size_pos (Message.symbolinfos h d) = omega arith

module _ {H : Type 0} where
  reply-taken :
      (s : Server H) (m : Message) (rest : List ℕ)
      → needed m ≤ msg_size m + length rest
      → reply s m rest ≡ returned (pos (msg_size m)) (deliver m s)
  reply-taken s (Message.app h) rest e = refl
  reply-taken s (Message.memory h d) rest e = refl
  reply-taken s (Message.thread h d) rest e = refl
  reply-taken s (Message.backtrace h d) rest e = rw (ge→ltb (length rest) 31 (omega arith))
  reply-taken s (Message.symbolinfos h d) rest e = refl

  after_msg-taken :
      (continue : ℕ → List ℕ → Server H → Result H ℤ) (n k : ℕ) (buf : List ℕ) (s : Server H)
      → 0 < k
      → after_msg continue n buf (returned (pos k) s) ≡ continue (n + k) (drop k buf) (count_msg s)
  unfolding after_msg
  after_msg-taken continue n zero buf s h = absurd (omega arith)
  after_msg-taken continue n (suc k) buf s h = refl

  loop-message :
      (fuel n : ℕ) (m : Message) (rest : List ℕ) (s : Server H)
      → IsWellSent m
      → needed m ≤ msg_size m + length rest
      → process_loop (suc fuel) n (message_bytes m ++ rest) s
        ≡ process_loop fuel (n + msg_size m) rest (count_msg (deliver m s))
  unfolding process_loop
  loop-message fuel n m rest s w enough =
      rw (lt→ltb 0 (length (message_bytes m ++ rest)) some_bytes) (
        ap (after_msg (process_loop fuel) n (message_bytes m ++ rest))
          (process_msg-message_bytes s m rest w ∙ reply-taken s m rest enough)
        ∙ after_msg-taken (process_loop fuel) n (msg_size m) _ (deliver m s) (msg_size_pos m)
        ∙ ap (λ b. process_loop fuel (n + msg_size m) b (count_msg (deliver m s)))
            (drop-append_exact (msg_size m) (message_bytes m) rest
              (sym (length-message_bytes m w))))
    where
      some_bytes : 0 < length (message_bytes m ++ rest)
      some_bytes =
          omega
            (arith, length-append (message_bytes m) rest, length-message_bytes m w, msg_size_pos m)

  loop-pending :
      (fuel n : ℕ) (rest : List ℕ) (s : Server H)
      → IsPending s rest
      → process_loop (suc fuel) n rest s ≡ returned (pos n) s
  unfolding process_loop after_msg
  loop-pending fuel n rest s (inl e) = rw e refl
  loop-pending fuel n [] s (inr e) = refl
  loop-pending fuel n (b ∷ bs) s (inr e) = rw (lt→ltb 0 (length (b ∷ bs)) (omega arith)) (rw e refl)

  loop-stream :
      (fuel n : ℕ) (ms : List Message) (rest : List ℕ) (s : Server H)
      → length (stream ms ++ rest) < fuel
      → AreTaken ms rest
      → IsPending (handle_all ms s) rest
      → process_loop fuel n (stream ms ++ rest) s
        ≡ returned (pos (n + length (stream ms))) (handle_all ms s)
  unfolding stream handle_all
  loop-stream zero n ms rest s enough w p = absurd (omega arith)
  loop-stream (suc fuel) n [] rest s enough w p =
      loop-pending fuel n rest s p ∙ ap (λ k. returned (pos k) s) (sym (add-zero n))
  loop-stream (suc fuel) n (m ∷ ms) rest s enough w p =
      rw (append_assoc (message_bytes m) (stream ms) rest) (
        loop-message fuel n m (stream ms ++ rest) s w.0 w.1
        ∙ loop-stream fuel (n + msg_size m) ms rest (count_msg (deliver m s)) less w.2 p
        ∙ ap (λ k. returned (pos k) (handle_all ms (count_msg (deliver m s)))) sum)
    where
      sum : n + msg_size m + length (stream ms) ≡ n + length (message_bytes m ++ stream ms)
      sum = omega (arith, length-append (message_bytes m) (stream ms), length-message_bytes m w.0)

      less : length (stream ms ++ rest) < fuel
      less = omega (
        arith,
        ap length (append_assoc (message_bytes m) (stream ms) rest),
        length-append (message_bytes m) (stream ms ++ rest),
        length-message_bytes m w.0,
        msg_size_pos m,
      )

  -- Messages that are taken, and a rest that holds no whole message: the messages are delivered and
  -- counted in their order, and the size of their bytes is returned.
  pub process_data_read-stream :
      (ms : List Message) (rest : List ℕ) (s : Server H)
      → AreTaken ms rest
      → IsPending (handle_all ms s) rest
      → process_data_read s (stream ms ++ rest)
        ≡ returned (pos (length (stream ms))) (handle_all ms s)
  unfolding process_data_read
  process_data_read-stream ms rest s w p =
      loop-stream (suc (length (stream ms ++ rest))) 0 ms rest s (omega arith) w p
      ∙ ap (λ k. returned (pos k) (handle_all ms s)) (zero-add (length (stream ms)))

abbrev pub AllWellSent : List Message → Type 0
AllWellSent [] = Unit {0}
AllWellSent (m ∷ ms) = IsWellSent m × AllWellSent ms

-- The last message is no backtrace.
abbrev pub EndsTaken : List Message → Type 0
EndsTaken [] = Unit {0}
EndsTaken (m ∷ []) = needed m ≤ msg_size m
EndsTaken (m ∷ m' ∷ ms) = EndsTaken (m' ∷ ms)

pub needed-le : (m : Message) → needed m ≤ msg_size m + 31
needed-le (Message.app h) = omega arith
needed-le (Message.memory h d) = omega arith
needed-le (Message.thread h d) = omega arith
needed-le (Message.backtrace h d) = omega arith
needed-le (Message.symbolinfos h d) = omega arith

pub msg_size-ge : (m : Message) → 31 ≤ msg_size m
msg_size-ge (Message.app h) = omega arith
msg_size-ge (Message.memory h d) = omega arith
msg_size-ge (Message.thread h d) = omega arith
msg_size-ge (Message.backtrace h d) = omega arith
msg_size-ge (Message.symbolinfos h d) = omega arith

-- Any further message, or another 31 bytes, is enough for the backtrace before it to be taken.
AllWellSent-taken :
    (ms : List Message) (rest : List ℕ)
    → AllWellSent ms
    → EndsTaken ms ⊎ (31 ≤ length rest)
    → AreTaken ms rest
unfolding stream
AllWellSent-taken [] rest w e = tt
AllWellSent-taken (m ∷ []) rest w (inl e) = (w.0, omega arith, tt)
AllWellSent-taken (m ∷ []) rest w (inr e) = (w.0, omega (arith, needed-le m), tt)
AllWellSent-taken (m ∷ m' ∷ ms) rest w e = (w.0, more, AllWellSent-taken (m' ∷ ms) rest w.1 e)
  where
    more : needed m ≤ msg_size m + length ((message_bytes m' ++ stream ms) ++ rest)
    more = omega (
      arith,
      needed-le m,
      msg_size-ge m',
      length-append (message_bytes m' ++ stream ms) rest,
      length-append (message_bytes m') (stream ms),
      length-message_bytes m' w.1.0,
    )

module _ {H : Type 0} (ms : List Message) (s : Server H) (w : AllWellSent ms) where
  -- A buffer of whole messages of the client, of which the last is no backtrace: every message is
  -- delivered and counted, in the order in which they were sent, and all the bytes are taken.
  pub process_data_read-messages :
      EndsTaken ms
      → process_data_read s (stream ms) ≡ returned (pos (length (stream ms))) (handle_all ms s)
  process_data_read-messages e =
      ap (process_data_read s) (sym (append-nil (stream ms)))
      ∙ process_data_read-stream ms [] s (AllWellSent-taken ms [] w (inl e)) (inl refl)

  -- A whole backtrace at the end of the buffer is not taken: the messages before it are delivered,
  -- and its bytes are left.
  pub process_data_read-held_backtrace :
      (h : Header) (d : BacktraceData)
      → IsWellSent (Message.backtrace h d)
      → process_data_read s (stream ms ++ message_bytes (Message.backtrace h d))
        ≡ returned (pos (length (stream ms))) (handle_all ms s)
  process_data_read-held_backtrace h d v =
      process_data_read-stream ms trace s
        (AllWellSent-taken ms trace w
          (inr (omega (arith, length-message_bytes (Message.backtrace h d) v))))
        (inr (
          ap (process_msg (handle_all ms s)) (sym (append-nil trace))
          ∙ process_msg-message_bytes (handle_all ms s) (Message.backtrace h d) [] v))
    where
      trace : List ℕ
      trace = message_bytes (Message.backtrace h d)
