-- ===== src/Client/Interleaved/Fits.antt =====
-- Messages of several threads of lib/server-comm.c whose fields fit their types.
use aleakd.Base.{
  ℕ, zero, suc, ◌≤◌, ◌<◌, Option, none, some, List, [], ◌∷◌, ◌++◌, map, get_elem?, set, arith,
}
use aleakd.Shared.Codes.{code}
use aleakd.Shared.Messages.{
  Header, Message, MemoryFits, ThreadFits, BacktraceFits, SymbolInfosFits, HeaderFits,
  backtrace_max_size,
}
use aleakd.Client.Comm.{Comm, header_init, send_safe}
use aleakd.Client.Comm.Ends.{IfEnds, IfEnds-then, IfEnds-always}
use aleakd.Client.Wrapper.Sends.{NowFits, header_init-HeaderFits}
use aleakd.Server.Process.Decode.{IsWellSent, IsTerminated, length-message_bytes, msg_size}
use aleakd.Server.Process.Stream.{AllWellSent}
use aleakd.Client.Interleaved.{
  Body, memory, thread, backtrace, symbolinfos, Request, Made, message_of, made_bytes, Thread,
  World, proceed, take_turn, run_schedule, new_thread, new_world,
}
use aleakd.Client.Interleaved.Sent.{IsSmall, AllSmall, no_header, length-message}
use aleakd.Client.Interleaved.Stream.{AllThreadsSmall}

abbrev pub BodyFits : Body → Type 0
BodyFits (memory c d) = MemoryFits d × (10 ≤ code c) × (code c < 20)
BodyFits (thread c d) = ThreadFits d × (30 ≤ code c) × (code c < 40) × IsTerminated d.thread_name
BodyFits (backtrace d) = BacktraceFits d × (d.backtrace_size ≤ backtrace_max_size)
BodyFits (symbolinfos d) =
    SymbolInfosFits d × IsTerminated d.object_name × IsTerminated d.symbol_name

abbrev pub AllFit : List Request → Type 0
AllFit [] = Unit {0}
AllFit (r ∷ rs) = (NowFits r.now × BodyFits r.body) × AllFit rs

abbrev pub AllThreadsFit : List (List Request) → Type 0
AllThreadsFit [] = Unit {0}
AllThreadsFit (rs ∷ rss) = AllFit rs × AllThreadsFit rss

-- The fields of a header, but for the code.
abbrev ModuloCode : Header → Type 0
ModuloCode h = (k : ℕ) → k < 256 → HeaderFits (record h { msg_code = k })

message_of-IsWellSent :
    (b : Body) (h : Header) → BodyFits b → ModuloCode h → IsWellSent (message_of b h)
unfolding message_of code
message_of-IsWellSent (memory c d) h f m = (m (code c) (omega arith), f.0, f.1, f.2)
message_of-IsWellSent (thread c d) h f m = (m (code c) (omega arith), f.0, f.1, f.2, f.3)
message_of-IsWellSent (backtrace d) h f m = (m 41 (omega arith), f.0, omega arith, omega arith, f.1)
message_of-IsWellSent (symbolinfos d) h f m =
    (m 51 (omega arith), f.0, omega arith, omega arith, f.1, f.2)

msg_size-le : (m : Message) → msg_size m ≤ 436
msg_size-le (Message.app h) = omega arith
msg_size-le (Message.memory h d) = omega arith
msg_size-le (Message.thread h d) = omega arith
msg_size-le (Message.backtrace h d) = omega arith
msg_size-le (Message.symbolinfos h d) = omega arith

fits-IsSmall : (r : Request) → BodyFits r.body → IsSmall r
fits-IsSmall r f =
    let m = message_of r.body no_header in
    let well = message_of-IsWellSent r.body no_header f (λ k small. record {
      time_sec = omega arith;
      time_usec = omega arith;
      thread_id = omega arith;
      msg_num = omega arith;
      msg_code = small;
    }) in
    omega (arith, length-message m, length-message_bytes m well, msg_size-le m)

AllFit-AllSmall : (rs : List Request) → AllFit rs → AllSmall rs
AllFit-AllSmall [] f = tt
AllFit-AllSmall (r ∷ rs) f = (fits-IsSmall r f.0.1, AllFit-AllSmall rs f.1)

pub AllThreadsFit-small : (rss : List (List Request)) → AllThreadsFit rss → AllThreadsSmall rss
AllThreadsFit-small [] f = tt
AllThreadsFit-small (rs ∷ rss) f = (AllFit-AllSmall rs f.0, AllThreadsFit-small rss f.1)

-- The messages that were sent, without their threads.
abbrev pub messages : List (ℕ × Made) → List Message
messages [] = []
messages ((i, m) ∷ ms) = message_of m.request.body m.header ∷ messages ms

abbrev HeldFits : Option Made → Type 0
HeldFits none = Unit {0}
HeldFits (some m) = IsWellSent (message_of m.request.body m.header)

abbrev ThreadsFit : List Thread → Type 0
ThreadsFit [] = Unit {0}
ThreadsFit (t ∷ ts) = (HeldFits t.held × AllFit t.todo) × ThreadsFit ts

ThreadsFit-set :
    (ts : List Thread) (i : ℕ) (t : Thread)
    → HeldFits t.held × AllFit t.todo
    → ThreadsFit ts
    → ThreadsFit (set ts i t)
ThreadsFit-set [] i t f fs = tt
ThreadsFit-set (u ∷ ts) zero t f fs = (f, fs.1)
ThreadsFit-set (u ∷ ts) (suc i) t f fs = (fs.0, ThreadsFit-set ts i t f fs.1)

abbrev OneFits : Option Thread → Type 0
OneFits none = Unit {0}
OneFits (some t) = HeldFits t.held × AllFit t.todo

ThreadsFit-get : (ts : List Thread) (i : ℕ) → ThreadsFit ts → OneFits (get_elem? ts i)
ThreadsFit-get [] i fs = tt
ThreadsFit-get (t ∷ ts) zero fs = fs.0
ThreadsFit-get (t ∷ ts) (suc i) fs = ThreadsFit-get ts i fs.1

messages-AllWellSent :
    (i : ℕ) (m : Made) (ms : List (ℕ × Made))
    → AllWellSent (messages ms)
    → HeldFits (some m)
    → AllWellSent (messages (ms ++ (i, m) ∷ []))
messages-AllWellSent i m [] w f = (f, tt)
messages-AllWellSent i m ((j, n) ∷ ms) w f = (w.0, messages-AllWellSent i m ms w.1 f)

-- What was sent, what is held and what will be made fit.
pub record IsFitting (w : World) : Type 0 where
  pub sent : AllWellSent (messages w.log)
  pub threads : ThreadsFit w.threads

proceed-IsFitting :
    (i : ℕ) (held : Option Made) (rs : List Request) (w : World)
    → HeldFits held × AllFit rs
    → IsFitting w
    → IfEnds IsFitting (proceed i held rs w)
unfolding proceed header_init
proceed-IsFitting i (some m) rs w f n =
    IfEnds-then (λ c. Unit {0}) IsFitting _ (send_safe (made_bytes m) w.comm) (IfEnds-always _)
      λ c u. record {
        sent = messages-AllWellSent i m w.log n.sent f.0;
        threads =
            ThreadsFit-set w.threads i (record { held = none; todo = rs }) (tt, f.1) n.threads;
      }
proceed-IsFitting i none [] w f n = n
proceed-IsFitting i none (r ∷ rs) w f n =
    let m : Made = record { request = r; header = (header_init r.now w.comm).0 } in
    record {
      sent = n.sent;
      threads =
          ThreadsFit-set w.threads i (record { held = some m; todo = rs })
            (
              message_of-IsWellSent r.body m.header f.1.0.1
                  (λ k small. header_init-HeaderFits r.now w.comm k f.1.0.0 small),
              f.1.1,
            )
            n.threads;
    }

take_turn-IsFitting :
    (i : ℕ) (t : Option Thread) (w : World)
    → OneFits t
    → IsFitting w
    → IfEnds IsFitting (take_turn i t w)
unfolding take_turn
take_turn-IsFitting i none w f n = n
take_turn-IsFitting i (some t) w f n = proceed-IsFitting i t.held t.todo w f n

run_schedule-IsFitting :
    (schedule : List ℕ) (w : World) → IsFitting w → IfEnds IsFitting (run_schedule schedule w)
unfolding run_schedule
run_schedule-IsFitting [] w n = n
run_schedule-IsFitting (i ∷ is) w n =
    IfEnds-then IsFitting IsFitting (run_schedule is) (take_turn i (get_elem? w.threads i) w)
      (take_turn-IsFitting i (get_elem? w.threads i) w (ThreadsFit-get w.threads i n.threads) n)
      (λ w' n'. run_schedule-IsFitting is w' n')

start-ThreadsFit : (rss : List (List Request)) → AllThreadsFit rss → ThreadsFit (map new_thread rss)
start-ThreadsFit [] f = tt
start-ThreadsFit (rs ∷ rss) f = ((tt, f.0), start-ThreadsFit rss f.1)

pub new_world-IsFitting :
    (schedule : List ℕ) (c : Comm) (rss : List (List Request))
    → AllThreadsFit rss
    → IfEnds IsFitting (run_schedule schedule (new_world c rss))
new_world-IsFitting schedule c rss f =
    run_schedule-IsFitting schedule (new_world c rss)
      (record { sent = tt; threads = start-ThreadsFit rss f })
