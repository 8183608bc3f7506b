-- ===== src/System.antt =====
-- The library (lib) and the server together: the accounts of a server that has just started, after
-- messages that report the calls of a program.
pub mod Pipe
pub mod Threads
use aleakd.Base.{
  ℕ, ◌≤◌, ◌≡◌, refl, sym, subst, Bool, true, false, not, none, some, List, [], ◌∷◌, ◌++◌, ◌==◌,
  arith, if◌then◌else◌,
}
use aleakd.Shared.Codes.{of_code, find_code, code}
use aleakd.Shared.Messages.{Message}
use aleakd.Model.Operations.{has_alloc_operation}
use aleakd.Server.Handler.{Server}
use aleakd.Server.Process.Stream.{handle_all, AllWellSent}
use aleakd.Controller.State.{Controller, new_controller}
use aleakd.Controller.Events.{AreReceived}
use aleakd.Controller.Delivery.{events_of, event_of, receiver, handle_all-receiver}
use aleakd.Controller.Accounting.Invariant.{IsAccounted, run-new_controller-IsAccounted}
use aleakd.Client.Wrapper.Sends.{Said, said, said_of}
use aleakd.Client.Calls.{Call}
use aleakd.Client.Calls.Says.{all_say, says}

-- The codes that the library uses for operations on memory.
abbrev AreKnown : List Said → Type 0
AreKnown [] = Unit {0}
AreKnown (Said.memory k size p old ∷ ss) = (11 ≤ k) × (k ≤ 19) × AreKnown ss
AreKnown (Said.thread k id name ∷ ss) = AreKnown ss

AreKnown-append : (ss ts : List Said) → AreKnown ss → AreKnown ts → AreKnown (ss ++ ts)
AreKnown-append [] ts f g = g
AreKnown-append (Said.memory k size p old ∷ ss) ts (low, high, f) g =
    (low, high, AreKnown-append ss ts f g)
AreKnown-append (Said.thread k id name ∷ ss) ts f g = AreKnown-append ss ts f g

when-AreKnown :
    (b : Bool) (k size p old : ℕ)
    → 11 ≤ k
    → k ≤ 19
    → AreKnown (if b then Said.memory k size p old ∷ [] else [])
when-AreKnown true k size p old low high = (low, high, tt)
when-AreKnown false k size p old low high = tt

when_thread-AreKnown :
    (b : Bool) (id : ℕ) (name : List ℕ) → AreKnown (if b then Said.thread 32 id name ∷ [] else [])
when_thread-AreKnown true id name = tt
when_thread-AreKnown false id name = tt

says-AreKnown : (call : Call) → AreKnown (says call)
unfolding says
says-AreKnown (Call.malloc size real trace) =
    when-AreKnown (not (real == 0)) 11 size real 0 (omega arith) (omega arith)
says-AreKnown (Call.calloc num size real trace) =
    when-AreKnown (not (real == 0)) 13 size real 0 (omega arith) (omega arith)
says-AreKnown (Call.realloc ptr size real trace) =
    when-AreKnown (not (real == 0)) 14 size real ptr (omega arith) (omega arith)
says-AreKnown (Call.posix_memalign size ret p trace) =
    when-AreKnown (ret == 0) 15 size p 0 (omega arith) (omega arith)
says-AreKnown (Call.aligned_alloc size real trace) =
    when-AreKnown (not (real == 0)) 16 size real 0 (omega arith) (omega arith)
says-AreKnown (Call.memalign size real trace) =
    when-AreKnown (not (real == 0)) 17 size real 0 (omega arith) (omega arith)
says-AreKnown (Call.valloc size real trace) =
    when-AreKnown (not (real == 0)) 18 size real 0 (omega arith) (omega arith)
says-AreKnown (Call.pvalloc size real trace) =
    when-AreKnown (not (real == 0)) 19 size real 0 (omega arith) (omega arith)
says-AreKnown (Call.free ptr trace) =
    when-AreKnown (not (ptr == 0)) 12 0 0 ptr (omega arith) (omega arith)
says-AreKnown (Call.pthread_create none) = tt
says-AreKnown (Call.pthread_create (some id)) = tt
says-AreKnown (Call.pthread_setname_np id name) = when_thread-AreKnown (not (id == 0)) id _

all_say-AreKnown : (calls : List Call) → AreKnown (all_say calls)
unfolding all_say
all_say-AreKnown [] = tt
all_say-AreKnown (call ∷ calls) =
    AreKnown-append (says call) (all_say calls) (says-AreKnown call) (all_say-AreKnown calls)

known-has_alloc : (k : ℕ) → 11 ≤ k → k ≤ 19 → has_alloc_operation (of_code k) ≡ true
unfolding has_alloc_operation of_code find_code code
known-has_alloc k low high = ground arith

events_of-AreReceived :
    (ms : List Message) → AllWellSent ms → AreKnown (said ms) → AreReceived (events_of ms)
unfolding events_of event_of said said_of
events_of-AreReceived [] w f = tt
events_of-AreReceived (Message.app h ∷ ms) w f = (tt, events_of-AreReceived ms w.1 f)
events_of-AreReceived (Message.memory h d ∷ ms) w (low, high, f) =
    ((refl, known-has_alloc h.msg_code low high, w.0.1.alloc_size), events_of-AreReceived ms w.1 f)
events_of-AreReceived (Message.thread h d ∷ ms) w f = (tt, events_of-AreReceived ms w.1 f)
events_of-AreReceived (Message.backtrace h d ∷ ms) w f = (tt, events_of-AreReceived ms w.1 f)
events_of-AreReceived (Message.symbolinfos h d ∷ ms) w f = (tt, events_of-AreReceived ms w.1 f)

-- The receiver of a server that has just started.
abbrev pub first_receiver : Server Controller
first_receiver = receiver 0 new_controller

-- The accounts are right after messages that report the calls.
pub shown :
    (calls : List Call) (ms : List Message)
    → AllWellSent ms
    → said ms ≡ all_say calls
    → let c = (handle_all ms first_receiver).handler_state in
      IsAccounted c.operations c.global_stats
shown calls ms well says_what =
    subst (λ c. IsAccounted c.operations c.global_stats)
      (sym (handle_all-receiver ms 0 new_controller))
      (run-new_controller-IsAccounted (events_of ms)
        (events_of-AreReceived ms well (subst AreKnown (sym says_what) (all_say-AreKnown calls))))
