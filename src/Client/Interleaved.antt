-- ===== src/Client/Interleaved.antt =====
-- Several threads of the program in lib/server-comm.c at once. A thread first makes a message, with its
-- number under `g_lockMsgCount`, fills it in on its own, and then sends it under `g_lockSocket`; between
-- the two the other threads go on.
pub mod Sent
pub mod Stream
pub mod Rising
pub mod Numbers
pub mod Fits
use aleakd.Base.{ℕ, Option, none, some, List, [], ◌∷◌, ◌++◌, set, get_elem?, map}
use aleakd.Shared.Codes.{MsgCode, code}
use aleakd.Shared.Messages.{
  Header, MemoryData, ThreadData, BacktraceData, SymbolInfosData, Message, message_bytes,
}
use aleakd.Client.Comm.{Now, Comm, Run, done, ◌>>=◌, header_init, send_safe}

-- What a wrapped function fills in.
pub data Body : Type 0 where
  memory : MsgCode → MemoryData → Body
  thread : MsgCode → ThreadData → Body
  backtrace : BacktraceData → Body
  symbolinfos : SymbolInfosData → Body

-- A message that a thread will make, at a time.
pub record Request : Type 0 where
  pub now : Now
  pub body : Body

-- A message with the header that it got.
pub record Made : Type 0 where
  pub request : Request
  pub header : Header

unfoldable pub message_of : Body → Header → Message
message_of (memory c d) h = Message.memory (record h { msg_code = code c }) d
message_of (thread c d) h = Message.thread (record h { msg_code = code c }) d
message_of (backtrace d) h = Message.backtrace (record h { msg_code = code MsgCode.backtrace }) d
message_of (symbolinfos d) h =
    Message.symbolinfos (record h { msg_code = code MsgCode.symbolinfos }) d

abbrev pub made_bytes : Made → List ℕ
made_bytes m = message_bytes (message_of m.request.body m.header)

-- A thread between two steps: what it has made and not sent, and what it will make.
pub record Thread : Type 0 where
  pub held : Option Made
  pub todo : List Request

-- The globals, the threads, and what was sent so far, each with the index of its thread.
pub record World : Type 0 where
  pub comm : Comm
  pub threads : List Thread
  pub log : List (ℕ × Made)

-- The next step of a thread.
unfoldable pub proceed : ℕ → Option Made → List Request → World → Run World
unfolding send_safe header_init message_of
proceed i (some m) rs w = send_safe (made_bytes m) w.comm >>= λ c. done (record {
  comm = c;
  threads = set w.threads i (record { held = none; todo = rs });
  log = w.log ++ (i, m) ∷ [];
})
proceed i none [] w = done w
proceed i none (r ∷ rs) w =
    let (h, c) = header_init r.now w.comm in
    let made : Made = record { request = r; header = h } in
    done (record w { comm = c; threads = set w.threads i (record { held = some made; todo = rs }) })

unfoldable pub take_turn : ℕ → Option Thread → World → Run World
unfolding proceed
take_turn i none w = done w
take_turn i (some t) w = proceed i t.held t.todo w

-- The threads take their steps in the order of a schedule.
unfoldable pub run_schedule : List ℕ → World → Run World
unfolding take_turn
run_schedule [] w = done w
run_schedule (i ∷ is) w = take_turn i (get_elem? w.threads i) w >>= run_schedule is

abbrev pub new_thread : List Request → Thread
new_thread rs = record { held = none; todo = rs }

-- The threads at their start.
abbrev pub new_world : Comm → List (List Request) → World
new_world c rss = record { comm = c; threads = map new_thread rss; log = [] }
