-- ===== src/Tests/Interleaved.antt =====
-- Two threads of the library, one of which overtakes the other between a number and its message.
use aleakd.Shared.Codes.{MsgCode, code}
use aleakd.Client.Wrapper.Sends.{NowFits}
use aleakd.Client.Interleaved.Fits.{BodyFits, AllThreadsFit, AllThreadsFit-small, messages}
use aleakd.Server.Process.{returned}
use aleakd.Server.Process.Stream.{handle_all, stream}
use aleakd.Server.Process.Held.{unheld}
use aleakd.Server.Reader.{do_read_msg}
use aleakd.System.Threads.{run_schedule-do_read_msg}
use aleakd.Tests.Receiver.{a_server}
use aleakd.Tests.Service.{
  many_msgs, many_msgs-AllWellSent, mallocs-length, pieces, pieces-AreAllLong, pieces-bytes_of,
}
use aleakd.Base.{
  ◌∙◌, ◌++◌, append-nil, ◌<◌, false, ◌^◌, ℕ, ◌≤◌, ◌≡◌, refl, true, List, [], ◌∷◌, arith,
}
use aleakd.Shared.Messages.{Message, MemoryData}
use aleakd.Client.Comm.{dispose, Comm, new_comm}
use aleakd.Client.Comm.Ends.{Ends}
use aleakd.Client.Comm.Buffer.{IsBuffering, concat}
use aleakd.Client.Interleaved.{Body, Request, run_schedule, new_world}
use aleakd.Client.Interleaved.Sent.{sent_by, work}
use aleakd.Client.Interleaved.Stream.{given}
use aleakd.Client.Interleaved.Rising.{NumbersRise}
use aleakd.Client.Interleaved.Numbers.{sent_count, run_schedule-numbers}

-- Twenty messages that were sent before.
abbrev first : List Message
first = many_msgs

-- The connection behind the bytes `bs` of twenty messages.
abbrev connected_behind : List ℕ → Comm
connected_behind bs = record new_comm {
  opened = true;
  msg_num = 20;
  transfer_enabled = true;
  sent = bs ∷ [];
}

connected_behind-IsBuffering : (bs : List ℕ) → IsBuffering bs (connected_behind bs)
unfolding concat
connected_behind-IsBuffering bs = (refl, refl, omega arith, append-nil _ ∙ append-nil bs)

abbrev connected : Comm
connected = connected_behind (stream first)

connected-IsBuffering : IsBuffering (stream first) connected
connected-IsBuffering = connected_behind-IsBuffering (stream first)

abbrev data_at : ℕ → MemoryData
data_at ptr = record { alloc_size = 16; alloc_ptr = ptr; alloc_num = 1; free_ptr = 0 }

abbrev request : ℕ → Request
request ptr = record {
  now = record { time_sec = 70; time_usec = 0; thread_id = 140000 };
  body = Body.memory MsgCode.malloc (data_at ptr);
}

request-fits : (ptr : ℕ) → ptr < 2 ^ 64 → NowFits (request ptr).now × BodyFits (request ptr).body
unfolding code
request-fits ptr h = (
  record { time_sec = omega arith; time_usec = omega arith; thread_id = omega arith },
  (
    record {
      alloc_size = omega arith;
      alloc_ptr = h;
      alloc_num = omega arith;
      free_ptr = omega arith;
    },
    omega arith,
    omega arith,
  ),
)

abbrev two_threads : List (List Request)
two_threads = (request 4096 ∷ request 4112 ∷ []) ∷ (request 8192 ∷ []) ∷ []

two_threads_fit : AllThreadsFit two_threads
two_threads_fit = (
  (request-fits 4096 (omega arith), (request-fits 4112 (omega arith), tt)),
  ((request-fits 8192 (omega arith), tt), tt),
)

-- Thread 0 gets the first number, and thread 1 sends first.
abbrev overtaking : List ℕ
overtaking = 0 ∷ 1 ∷ 1 ∷ 0 ∷ 0 ∷ 0 ∷ []

run_schedule-do_read_msg_example :
    Ends
      (λ w.
        (do_read_msg a_server (pieces (concat (dispose w.comm).sent))
          ≡ returned false (handle_all (unheld (first ++ messages w.log)) a_server))
        × ((i : ℕ) → work i w ≡ given two_threads i))
      (run_schedule overtaking (new_world connected two_threads))
run_schedule-do_read_msg_example =
    run_schedule-do_read_msg a_server pieces overtaking connected two_threads first
      many_msgs-AllWellSent (omega (arith, mallocs-length 20)) connected-IsBuffering two_threads_fit
      pieces-AreAllLong pieces-bytes_of

run_schedule-numbers_example :
    Ends
      (λ w.
        ((k : ℕ) → sent_count k w.log ≤ 1)
        × ((i : ℕ) → NumbersRise 20 w.comm.msg_num (sent_by i w.log)))
      (run_schedule overtaking (new_world connected two_threads))
run_schedule-numbers_example =
    run_schedule-numbers overtaking connected two_threads (stream first) connected-IsBuffering
      (AllThreadsFit-small two_threads two_threads_fit) (omega arith)
