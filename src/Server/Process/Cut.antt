-- ===== src/Server/Process/Cut.antt =====
-- The first bytes of a stream of messages of the client: the messages that are whole, as
-- `doProcessDataRead` of MemOpRcptServer.cpp takes them, and the rest that it leaves.
use aleakd.Base.{
  append-nil, ℕ, ◌+◌, ◌≤◌, ◌<◌, ◌≡◌, inl, inr, refl, sym, ap, ◌∙◌, Bool-cases, ltb, ltb→lt, ltb→ge,
  List, [], ◌∷◌, ◌++◌, append_assoc, length, take, drop, length-append, drop-append,
  drop-append_exact, take-append, take-append_exact, take-drop, arith,
}
use aleakd.Shared.Messages.{Message, message_bytes}
use aleakd.Server.Handler.{Server}
use aleakd.Server.Process.{count_msg}
use aleakd.Server.Process.Decode.{IsWellSent, deliver, msg_size, needed, length-message_bytes}
use aleakd.Server.Process.Held.{unheld, unheld_short, unheld_taken}
use aleakd.Server.Process.Prefix.{process_msg-prefix}
use aleakd.Server.Process.Stream.{stream, handle_all, AreTaken, AllWellSent, EndsTaken, IsPending}

-- `p` is the first part of the bytes of `ms`, and `q` what is still to come.
pub record Cut (H : Type 0) (ms : List Message) (p q : List ℕ) : Type 0 where
  pub taken : List Message
  pub left : List Message
  pub rest : List ℕ
  pub parts : p ≡ stream taken ++ rest
  pub behind : rest ++ q ≡ stream left
  pub takes : AreTaken taken rest
  pub pending : (s : Server H) → IsPending s rest
  pub short : length rest < 467
  pub whole : q ≡ [] → unheld left ≡ []
  pub well : AllWellSent left
  pub ends : EndsTaken ms → EndsTaken left
  pub same :
      (s : Server H) → handle_all (unheld ms) s ≡ handle_all (unheld left) (handle_all taken s)

-- The bytes of the first message are at the front of a part that is long enough for it.
front_is_message :
    (m : Message) (p q rest : List ℕ)
    → IsWellSent m
    → p ++ q ≡ message_bytes m ++ rest
    → msg_size m ≤ length p
    → message_bytes m ++ drop (msg_size m) p ≡ p
front_is_message m p q rest w parts enough =
    ap (λ b. b ++ drop (msg_size m) p)
      (sym (take-append_exact (msg_size m) (message_bytes m) rest (sym (length-message_bytes m w)))
        ∙ ap (take (msg_size m)) (sym parts)
        ∙ take-append (msg_size m) p q enough)
    ∙ take-drop (msg_size m) p

rest_is_stream :
    (m : Message) (p q rest : List ℕ)
    → IsWellSent m
    → p ++ q ≡ message_bytes m ++ rest
    → msg_size m ≤ length p
    → drop (msg_size m) p ++ q ≡ rest
rest_is_stream m p q rest w parts enough =
    sym (drop-append (msg_size m) p q enough)
    ∙ ap (drop (msg_size m)) parts
    ∙ drop-append_exact (msg_size m) (message_bytes m) rest (sym (length-message_bytes m w))

msg_size-le : (m : Message) → msg_size m ≤ needed m
msg_size-le (Message.app h) = omega arith
msg_size-le (Message.memory h d) = omega arith
msg_size-le (Message.thread h d) = omega arith
msg_size-le (Message.backtrace h d) = omega arith
msg_size-le (Message.symbolinfos h d) = omega arith

EndsTaken-tail : (m : Message) (ms : List Message) → EndsTaken (m ∷ ms) → EndsTaken ms
EndsTaken-tail m [] t = tt
EndsTaken-tail m (m' ∷ ms) t = t

nil_of_append : (p q : List ℕ) → p ++ q ≡ [] → p ≡ []
nil_of_append [] q e = refl
nil_of_append (b ∷ p) q e = cc

pub needed-le_467 : (m : Message) → needed m ≤ 467
needed-le_467 (Message.app h) = omega arith
needed-le_467 (Message.memory h d) = omega arith
needed-le_467 (Message.thread h d) = omega arith
needed-le_467 (Message.backtrace h d) = omega arith
needed-le_467 (Message.symbolinfos h d) = omega arith

module _ {H : Type 0} where
  -- No whole message is there.
  none_taken :
      (m : Message) (ms : List Message) (p q : List ℕ)
      → AllWellSent (m ∷ ms)
      → p ++ q ≡ stream (m ∷ ms)
      → length p < needed m
      → Cut H (m ∷ ms) p q
  unfolding stream handle_all
  none_taken m ms p q w parts short = record {
    taken = [];
    left = m ∷ ms;
    rest = p;
    parts = refl;
    behind = parts;
    takes = tt;
    pending = λ s. inr (process_msg-prefix s m p q (stream ms) w.0 parts short);
    short = omega (arith, needed-le_467 m);
    whole = λ done. unheld_short m ms w (
        omega
          (arith, ap length (ap (λ b. p ++ b) done), ap length (append-nil p), ap length parts));
    well = w;
    ends = λ t. t;
    same = λ s. refl;
  }

  -- The first message is whole, and the cut goes on behind it.
  one_taken :
      (m : Message) (ms : List Message) (p q : List ℕ)
      → IsWellSent m
      → message_bytes m ++ drop (msg_size m) p ≡ p
      → needed m ≤ length p
      → p ++ q ≡ stream (m ∷ ms)
      → Cut H ms (drop (msg_size m) p) q
      → Cut H (m ∷ ms) p q
  unfolding stream handle_all
  one_taken m ms p q w front enough parts c = record {
    taken = m ∷ c.taken;
    left = c.left;
    rest = c.rest;
    parts = joined;
    behind = c.behind;
    takes = (w, room, c.takes);
    pending = c.pending;
    short = c.short;
    whole = c.whole;
    well = c.well;
    ends = λ t. c.ends (EndsTaken-tail m ms t);
    same =
        λ s. ap (λ l. handle_all l s) (unheld_taken m ms w long) ∙ c.same (count_msg (deliver m s));
  }
    where
      long : needed m ≤ length (stream (m ∷ ms))
      long = omega (arith, ap length parts, length-append p q)

      joined : p ≡ (message_bytes m ++ stream c.taken) ++ c.rest
      joined =
          sym front
          ∙ ap (λ b. message_bytes m ++ b) c.parts
          ∙ sym (append_assoc (message_bytes m) (stream c.taken) c.rest)

      room : needed m ≤ msg_size m + length (stream c.taken ++ c.rest)
      room = omega (
        arith,
        ap length front,
        length-append (message_bytes m) (drop (msg_size m) p),
        length-message_bytes m w,
        ap length c.parts,
      )

  -- Every first part of a stream can be cut.
  pub cut : (ms : List Message) (p q : List ℕ) → AllWellSent ms → p ++ q ≡ stream ms → Cut H ms p q
  unfolding stream handle_all unheld
  cut [] p q w parts = record {
    taken = [];
    left = [];
    rest = p;
    parts = refl;
    behind = parts;
    takes = tt;
    pending = λ s. inl (nil_of_append p q parts);
    short = omega (arith, ap length (nil_of_append p q parts));
    whole = λ done. refl;
    well = tt;
    ends = λ t. tt;
    same = λ s. refl;
  }
  cut (m ∷ ms) p q w parts = elim (Bool-cases (ltb (length p) (needed m))) [
    | inl few ↦ none_taken m ms p q w parts (ltb→lt (length p) (needed m) few)
    | inr enough ↦
        let more : needed m ≤ length p = ltb→ge (length p) (needed m) enough in
        let room : msg_size m ≤ length p = omega (arith, msg_size-le m) in
        one_taken m ms p q w.0 (front_is_message m p q (stream ms) w.0 parts room) more parts
          (cut ms (drop (msg_size m) p) q w.1 (rest_is_stream m p q (stream ms) w.0 parts room))
  ]
