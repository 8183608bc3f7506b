-- ===== src/Client/Comm/Buffer.antt =====
-- The buffers of lib/server-comm.c: what reaches the server, and in which order.
use aleakd.Client.Comm.Ends.{Ends, Ends-if_true, Ends-then}
use aleakd.Client.Comm.{
  send_pre_init, send_first, is_positive, is_open, name_pipe, header_init, send_physical,
  flush_if_full, append_to, send, Now, ◌>>=◌, done, Run, dispose, new_comm, Comm, init, send_safe,
  buffer_size,
}
use aleakd.Base.{
  Option, ltb→ge, ltb, false, if◌then◌else◌, subst, leb→gt, inr, inl, Bool-cases, ℕ, suc, ◌+◌, ◌≤◌,
  ◌<◌, ◌≡◌, refl, sym, ap, ◌∙◌, Bool, true, some, List, [], ◌∷◌, ◌++◌, append_assoc, append-nil,
  length, length-append, leb, ge→ltb, lt→ltb, arith,
}
use aleakd.Shared.Messages.{Message, message_bytes}

-- The bytes of several buffers.
unfoldable pub concat : List (List ℕ) → List ℕ
concat [] = []
concat (bs ∷ bss) = bs ++ concat bss

-- No buffer is larger than the transfer buffer.
abbrev pub AreSmall : List (List ℕ) → Type 0
AreSmall [] = Unit {0}
AreSmall (bs ∷ bss) = (length bs ≤ buffer_size) × AreSmall bss

-- `servercomm_send_safe` on several messages, one after the other.
unfoldable pub send_all : List (List ℕ) → Comm → Run Comm
unfolding send_safe
send_all [] c = done c
send_all (bs ∷ bss) c = send_safe bs c >>= send_all bss

-- A run of the library: `before` is sent while there is no pipe, then it is opened as `fd`, `after`
-- is sent, and the library is closed.
unfoldable pub session : List (List ℕ) → ℕ → Now → List (List ℕ) → Run Comm
unfolding send_all init dispose
session before fd now after = send_all before new_comm >>= λ c.
    (init true (some fd) now c).1 >>= send_all after >>= λ d. done (dispose d)

concat-append : (xss yss : List (List ℕ)) → concat (xss ++ yss) ≡ concat xss ++ concat yss
unfolding concat
concat-append [] yss = refl
concat-append (xs ∷ xss) yss =
    ap (◌++◌ xs) (concat-append xss yss) ∙ sym (append_assoc xs (concat xss) (concat yss))

concat-one : (bs : List ℕ) → concat (bs ∷ []) ≡ bs
unfolding concat
concat-one bs = append-nil bs

-- The messages so far: what was written to the pipe and what waits in the buffer.
abbrev pub written : Comm → List ℕ
written c = concat c.sent ++ c.transfer_buffer

-- The library is connected, its buffer holds what it has room for, and `bs` has been sent.
abbrev pub IsBuffering : List ℕ → Comm → Type 0
IsBuffering bs c =
    (c.opened ≡ true)
    × (c.transfer_enabled ≡ true)
    × (length c.transfer_buffer ≤ buffer_size)
    × (written c ≡ bs)

append_to_fits :
    (P : Comm → Type 0) (buffer bs : List ℕ) (k : List ℕ → Comm)
    → length buffer + length bs ≤ buffer_size
    → P (k (buffer ++ bs))
    → Ends P (append_to buffer bs k)
append_to_fits P buffer bs k room p = rw (ge→ltb buffer_size (length buffer + length bs) room) p

concat-send_physical : (c : Comm) → concat (c.sent ++ c.transfer_buffer ∷ []) ≡ written c
concat-send_physical c =
    concat-append c.sent (c.transfer_buffer ∷ [])
    ∙ ap (◌++◌ (concat c.sent)) (concat-one c.transfer_buffer)

-- The buffer is emptied in time, and nothing is lost.
flush_if_full-IsBuffering :
    (size : ℕ) (acc : List ℕ) (c : Comm)
    → size ≤ buffer_size
    → IsBuffering acc c
    → IsBuffering acc (flush_if_full size c)
      × (length (flush_if_full size c).transfer_buffer + size ≤ buffer_size)
unfolding flush_if_full send_physical
flush_if_full-IsBuffering size acc c small (o, e, room, w) =
    elim (Bool-cases (leb buffer_size (length c.transfer_buffer + size))) [
      | inl full ↦
          rw (full) ((o, e, omega arith, append-nil _ ∙ concat-send_physical c ∙ w), omega arith)
      | inr fits ↦ rw (fits) ((o, e, room, w), omega (arith, leb→gt _ _ fits))
    ]

-- A message that is sent to a connected library comes behind the others.
pub send_safe-IsBuffering :
    (bs acc : List ℕ) (c : Comm)
    → length bs ≤ buffer_size
    → IsBuffering acc c
    → Ends (IsBuffering (acc ++ bs)) (send_safe bs c)
unfolding send_safe send
send_safe-IsBuffering bs acc c small b =
    let ((o, e, room, w), fits) = flush_if_full-IsBuffering (length bs) acc c small b in
    let c' : Comm = flush_if_full (length bs) c in
    let P : Comm → Type 0 = IsBuffering (acc ++ bs) in
    Ends-if_true P c.opened _ _ b.0 (
      Ends-if_true P c.transfer_enabled _ _ b.1 (
        append_to_fits P c'.transfer_buffer bs (λ buffer. record c' { transfer_buffer = buffer })
          fits
          (
            o,
            e,
            omega (arith, length-append c'.transfer_buffer bs),
            sym (append_assoc (concat c'.sent) c'.transfer_buffer bs) ∙ ap (λ xs. xs ++ bs) w,
          )))

send_all-IsBuffering :
    (bss : List (List ℕ)) (acc : List ℕ) (c : Comm)
    → AreSmall bss
    → IsBuffering acc c
    → Ends (IsBuffering (acc ++ concat bss)) (send_all bss c)
unfolding send_all concat
send_all-IsBuffering [] acc c small b = rw (append-nil acc) b
send_all-IsBuffering (bs ∷ bss) acc c (fits, small) b =
    Ends-then (IsBuffering (acc ++ bs)) _ (send_all bss) (send_safe bs c)
      (send_safe-IsBuffering bs acc c fits b)
      λ d bd.
        subst (λ xs. Ends (IsBuffering xs) (send_all bss d)) (append_assoc acc bs (concat bss))
          (send_all-IsBuffering bss (acc ++ bs) d small bd)

-- While there is no pipe, what is sent waits in order, as long as it has room.
send_all-IsWaiting :
    (bss : List (List ℕ)) (acc : List ℕ)
    → length acc + length (concat bss) ≤ buffer_size
    → send_all bss (record new_comm { pre_init_buffer = acc })
      ≡ done (record new_comm { pre_init_buffer = acc ++ concat bss })
unfolding send_all send_safe concat
send_all-IsWaiting [] acc room = rw (append-nil acc) refl
send_all-IsWaiting (bs ∷ bss) acc room =
    rw (ge→ltb buffer_size (length acc + length bs) (omega (arith, length-append bs (concat bss))))
      (send_all-IsWaiting bss (acc ++ bs)
          (omega (arith, length-append bs (concat bss), length-append acc bs))
        ∙ ap (λ xs. done (record new_comm { pre_init_buffer = xs }))
            (append_assoc acc bs (concat bss)))

-- The first message of the library.
abbrev pub first_message : Now → List ℕ
first_message now = message_bytes (Message.app (header_init now new_comm).0)

pub init-IsBuffering :
    (fd : ℕ) (now : Now) (pre : List ℕ)
    → 0 < fd
    → Ends
        (IsBuffering (first_message now ++ pre))
        (init true (some fd) now (record new_comm { pre_init_buffer = pre })).1
unfolding init name_pipe is_open is_positive send_first send_safe send send_physical send_pre_init
    header_init concat
init-IsBuffering fd now [] h = rw (lt→ltb 0 fd h) (refl, refl, omega arith, append-nil _)
init-IsBuffering fd now (b ∷ pre) h =
    rw (lt→ltb 0 fd h, lt→ltb 0 (suc (length pre)) (omega arith))
      (refl, refl, omega arith, append-nil _ ∙ ap (◌++◌ (first_message now)) (append-nil (b ∷ pre)))

-- A pipe that could be opened.
pub init-connected :
    (found : Bool) (fd : Option ℕ) (k : ℕ) (now : Now)
    → found ≡ true
    → fd ≡ some (suc k)
    → ((init found fd now new_comm).0 ≡ true)
      × Ends (IsBuffering (first_message now ++ [])) (init found fd now new_comm).1
unfolding init name_pipe is_positive
init-connected found fd k now e o =
    rw (e, o) (lt→ltb 0 (suc k) (omega arith), init-IsBuffering (suc k) now [] (omega arith))

pub dispose-written : (acc : List ℕ) (c : Comm) → IsBuffering acc c → concat (dispose c).sent ≡ acc
unfolding dispose send_physical
dispose-written acc c (o, e, room, w) = rw (o, e) (concat-send_physical c ∙ w)

-- When no message is larger than a buffer, what is sent before the pipe is there fits into one
-- buffer, and the pipe opens with a positive descriptor, a run of the library writes past no
-- buffer, and the server gets, in this order: the first message, what was sent before, and what
-- was sent after.
pub session_in_order :
    (before : List (List ℕ)) (fd : ℕ) (now : Now) (after : List (List ℕ))
    → length (concat before) ≤ buffer_size
    → AreSmall after
    → 0 < fd
    → Ends
        (λ c. concat c.sent ≡ (first_message now ++ concat before) ++ concat after)
        (session before fd now after)
unfolding session
session_in_order before fd now after room small h =
    let first = first_message now ++ concat before in
    let opened : Run Comm =
      (init true (some fd) now (record new_comm { pre_init_buffer = concat before })).1 in
    rw (send_all-IsWaiting before [] (omega arith)) (
      Ends-then (IsBuffering (first ++ concat after)) _ _ (opened >>= send_all after)
        (Ends-then (IsBuffering first) _ (send_all after) opened
          (init-IsBuffering fd now (concat before) h)
          λ c b. send_all-IsBuffering after first c small b)
        λ d b. dispose-written (first ++ concat after) d b)

if_false {ℓ} : {A : Type ℓ} (b : Bool) (x y : A) → b ≡ false → (if b then x else y) ≡ y
if_false b x y e = rw (e) refl

-- Without a pipe, messages that do not fit together into what is left of the buffer for them are
-- written past its end: nothing tests for room.
pub send_all-overflow :
    (bss : List (List ℕ)) (c : Comm)
    → c.opened ≡ false
    → length c.pre_init_buffer ≤ buffer_size
    → buffer_size < length c.pre_init_buffer + length (concat bss)
    → send_all bss c ≡ Run.overflow
unfolding send_all send_safe concat
send_all-overflow [] c o fits more = absurd (omega arith)
send_all-overflow (bs ∷ bss) c o fits more =
    let size = length c.pre_init_buffer + length bs in
    let waits : send_safe bs c
        ≡ append_to c.pre_init_buffer bs (λ buffer. record c { pre_init_buffer = buffer }) =
      if_false c.opened _ _ o in
    let extended = record c { pre_init_buffer = c.pre_init_buffer ++ bs } in
    elim (Bool-cases (ltb buffer_size size)) [
      | inl full ↦
          let stops : send_safe bs c ≡ Run.overflow = waits ∙ rw (full) refl in
          ap (λ r. r >>= send_all bss) stops
      | inr room ↦
          let goes_on : send_safe bs c ≡ done extended = waits ∙ rw (room) refl in
          ap (λ r. r >>= send_all bss) goes_on
          ∙ send_all-overflow bss extended o
              (omega (arith, length-append c.pre_init_buffer bs, ltb→ge buffer_size size room))
              (omega (arith, length-append c.pre_init_buffer bs, length-append bs (concat bss)))
    ]
