-- ===== src/Client/Calls/Received.antt =====
-- The two ends together: what the receiver of server/Server makes of a run of the library, lib.
use aleakd.Client.Comm.Ends.{Ends, Ends-map}
use aleakd.Server.Process.Decode.{msg_size}
use aleakd.Server.Process.Held.{unheld, length-stream_cons}
use aleakd.Server.Reader.{Read, do_read_msg}
use aleakd.Server.Reader.Chunks.{bytes_of, AreAllLong, do_read_msg-stream}
use aleakd.Base.{
  ℕ, ◌*◌, ◌≤◌, false, length-append, ◌≡◌, inr, refl, ap, ◌∙◌, List, [], ◌∷◌, ◌++◌, length, arith,
}
use aleakd.Shared.Messages.{Message}
use aleakd.Server.Handler.{Server}
use aleakd.Server.Process.{returned}
use aleakd.Server.Process.Stream.{stream, handle_all, AllWellSent}
use aleakd.Client.Comm.Buffer.{concat}
use aleakd.Client.Wrapper.{Env, Wrapper}
use aleakd.Client.Wrapper.Sends.{EnvFits, Said, said_of, said}
use aleakd.Client.Calls.{Call, run_library}
use aleakd.Client.Calls.Says.{CallsFit, all_say}
use aleakd.Client.Calls.Library.{HasDelivered, IsConnectable, run_library-HasDelivered}

pub unheld-said : (ms : List Message) → said (unheld ms) ≡ said ms
unfolding said said_of unheld
unheld-said [] = refl
unheld-said (Message.app h ∷ []) = refl
unheld-said (Message.memory h d ∷ []) = refl
unheld-said (Message.thread h d ∷ []) = refl
unheld-said (Message.backtrace h d ∷ []) = refl
unheld-said (Message.symbolinfos h d ∷ []) = refl
unheld-said (Message.app h ∷ m' ∷ ms) = unheld-said (m' ∷ ms)
unheld-said (Message.memory h d ∷ m' ∷ ms) =
    ap (◌++◌ (said_of (Message.memory h d))) (unheld-said (m' ∷ ms))
unheld-said (Message.thread h d ∷ m' ∷ ms) =
    ap (◌++◌ (said_of (Message.thread h d))) (unheld-said (m' ∷ ms))
unheld-said (Message.backtrace h d ∷ m' ∷ ms) = unheld-said (m' ∷ ms)
unheld-said (Message.symbolinfos h d ∷ m' ∷ ms) = unheld-said (m' ∷ ms)

pub AllWellSent-unheld : (ms : List Message) → AllWellSent ms → AllWellSent (unheld ms)
unfolding unheld
AllWellSent-unheld [] w = tt
AllWellSent-unheld (Message.app h ∷ []) w = w
AllWellSent-unheld (Message.memory h d ∷ []) w = w
AllWellSent-unheld (Message.thread h d ∷ []) w = w
AllWellSent-unheld (Message.backtrace h d ∷ []) w = tt
AllWellSent-unheld (Message.symbolinfos h d ∷ []) w = w
AllWellSent-unheld (Message.app h ∷ m' ∷ ms) w = (w.0, AllWellSent-unheld (m' ∷ ms) w.1)
AllWellSent-unheld (Message.memory h d ∷ m' ∷ ms) w = (w.0, AllWellSent-unheld (m' ∷ ms) w.1)
AllWellSent-unheld (Message.thread h d ∷ m' ∷ ms) w = (w.0, AllWellSent-unheld (m' ∷ ms) w.1)
AllWellSent-unheld (Message.backtrace h d ∷ m' ∷ ms) w = (w.0, AllWellSent-unheld (m' ∷ ms) w.1)
AllWellSent-unheld (Message.symbolinfos h d ∷ m' ∷ ms) w = (w.0, AllWellSent-unheld (m' ∷ ms) w.1)

-- What is said takes at least 59 bytes each.
length-stream-said :
    (ms : List Message) → AllWellSent ms → 59 * length (said ms) ≤ length (stream ms)
unfolding said said_of stream
length-stream-said [] w = omega arith
length-stream-said (m ∷ ms) w = omega (
  arith,
  said_of-size m,
  length-append (said_of m) (said ms),
  length-stream_cons m ms w.0,
  length-stream-said ms w.1,
)
  where
    said_of-size : (m : Message) → 59 * length (said_of m) ≤ msg_size m
    said_of-size (Message.app h) = omega arith
    said_of-size (Message.memory h d) = omega arith
    said_of-size (Message.thread h d) = omega arith
    said_of-size (Message.backtrace h d) = omega arith
    said_of-size (Message.symbolinfos h d) = omega arith

-- Sixteen things said are more than one long read.
pub sent-long :
    (ms : List Message) (what : List Said) (sent : List ℕ)
    → AllWellSent ms
    → said ms ≡ what
    → sent ≡ stream ms
    → 16 ≤ length what
    → 932 ≤ length sent
sent-long ms what sent w says_what e enough =
    omega (arith, ap length e, ap length says_what, length-stream-said ms w)

-- The receiver reads what the library has written, from a device that cuts it into reads, and its
-- handler is told, in this order, of messages that say `what`, each counted.
abbrev pub IsReceived :
    {H : Type 0} → Server H → (List ℕ → List Read) → List Said → Wrapper → Type 0
IsReceived s cut what w =
    (ms : List Message) × AllWellSent ms
    × (said ms ≡ what)
    × (do_read_msg s (cut (concat w.comm.sent)) ≡ returned false (handle_all ms s))

module _ {H : Type 0} (s : Server H) (cut : List ℕ → List Read) where
  -- A run of the library with a pipe to open, of which at least 16 calls are reported, read by
  -- `doReadMsg` in reads of at least 932 and at most 4096 bytes: the handler is told of messages that
  -- report the calls, in their order. The calls are reported as `says` lists them, a `calloc` with the
  -- size of one element, and a `realloc` that gives a null pointer not at all. A backtrace that comes
  -- last is held back. The values fit 64 bits, the traces have at most 50 addresses, and the names of
  -- threads, objects and symbols leave room for a closing 0.
  pub run_library-IsReceived :
      (env : Env) (calls : List Call)
      → EnvFits env
      → IsConnectable env
      → CallsFit calls
      → 16 ≤ length (all_say calls)
      → ((bs : List ℕ) → 932 ≤ length bs → AreAllLong (cut bs))
      → ((bs : List ℕ) → bytes_of (cut bs) ≡ bs)
      → Ends (IsReceived s cut (all_say calls)) (run_library env calls)
  run_library-IsReceived env calls fits pipe f enough long same =
      Ends-map (HasDelivered (all_say calls)) (IsReceived s cut (all_say calls))
        (run_library env calls) (run_library-HasDelivered env fits pipe calls f)
        λ w (ms, well, says_what, sent).
          let bs = concat w.comm.sent in
          let (more, last) = long bs (sent-long ms (all_say calls) bs well says_what sent enough) in
          (
            unheld ms,
            AllWellSent-unheld ms well,
            unheld-said ms ∙ says_what,
            do_read_msg-stream s (cut bs) ms more (inr last) well (same bs ∙ sent),
          )
