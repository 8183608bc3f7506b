-- ===== src/Tests/Service.antt =====
-- The thread of the receiver at concrete data: reads that end inside messages, and several clients.
use aleakd.Client.Comm.Ends.{Ends}
use mathlib.Core.List.{Perm}
use aleakd.Client.Calls.Received.{IsReceived, run_library-IsReceived}
use aleakd.System.{first_receiver}
use aleakd.Client.Wrapper.Sends.{AllWellSent-append}
use aleakd.Base.{
  ◌+◌, if◌then◌else◌, Bool-cases, ltb, ltb→lt, ltb→ge, ℕ, zero, suc, ◌*◌, ◌≤◌, ◌<◌, ◌≡◌, inl, inr,
  refl, sym, ap, ◌∙◌, true, false, none, some, List, [], ◌∷◌, ◌++◌, append-nil, length, take, drop,
  replicate, take-drop, length-take, length-drop, arith,
}
use aleakd.Shared.Messages.{Message, message_bytes}
use aleakd.Server.Process.{overlapping_copy, fault, returned}
use aleakd.Server.Process.Stream.{stream, handle_all, AllWellSent, EndsTaken}
use aleakd.Server.Process.Held.{unheld, length-stream_cons}
use aleakd.Server.Process.Decode.{length-message_bytes}
use aleakd.Server.Reader.Overlap.{do_read_msg-overlap}
use aleakd.Server.Reader.{Read, bytes, failed, do_read_msg}
use aleakd.Server.Reader.Chunks.{
  bytes_of, AreLong, AreAllLong, do_read_msg-stream, do_read_msg-short_read,
}
use aleakd.Server.Service.{
  PipeFile, open_failed, waiting, stopped, run_named_pipe, on_pending_datagram_to_read, SocketEvent,
  SocketState, run_sockets,
}
use aleakd.Server.Service.Sockets.{held, came, run_sockets-held}
use aleakd.Server.Service.Sessions.{
  Client, serve_all, sessions_of, datagrams_of, AreServed, run_named_pipe-sessions,
  run_named_pipe-stops, on_pending_datagram_to_read-messages,
}
use aleakd.Client.Calls.Says.{all_say}
use aleakd.Client.Calls.{run_library}
use aleakd.System.Pipe.{IsServed, run_library-IsServed}
use aleakd.Tests.Receiver.{
  a_trace, a_header, a_server, malloc_msg, trace_msg, malloc_msg-IsWellSent, trace_msg-IsWellSent,
}
use aleakd.Tests.Whole.{an_env, an_env-EnvFits, many_calls, many_calls-fit, enough_said}

-- Twenty messages, and a read that ends inside the sixteenth.
abbrev pub many_msgs : List Message
many_msgs = replicate 20 malloc_msg

abbrev many_reads : List Read
many_reads = bytes (take 940 (stream many_msgs)) ∷ failed ∷ bytes (drop 940 (stream many_msgs)) ∷ []

pub mallocs-length : (n : ℕ) → length (stream (replicate n malloc_msg)) ≡ 59 * n
unfolding stream
mallocs-length zero = refl
mallocs-length (suc n) = omega (
  arith,
  length-stream_cons malloc_msg (replicate n malloc_msg) malloc_msg-IsWellSent,
  mallocs-length n,
)

mallocs-AllWellSent : (n : ℕ) → AllWellSent (replicate n malloc_msg)
mallocs-AllWellSent zero = tt
mallocs-AllWellSent (suc n) = (malloc_msg-IsWellSent, mallocs-AllWellSent n)

many_reads-AreLong : AreLong many_reads
many_reads-AreLong = (
  omega (arith, length-take 940 (stream many_msgs), mallocs-length 20),
  omega (arith, length-take 940 (stream many_msgs), mallocs-length 20),
  (
    omega (arith, length-drop 940 (stream many_msgs), mallocs-length 20),
    omega (arith, length-drop 940 (stream many_msgs), mallocs-length 20),
  ),
)

pub many_msgs-AllWellSent : AllWellSent many_msgs
many_msgs-AllWellSent = mallocs-AllWellSent 20

many_msgs-EndsTaken : EndsTaken many_msgs
many_msgs-EndsTaken = omega arith

many_reads-bytes_of : bytes_of many_reads ≡ stream many_msgs
unfolding bytes_of
many_reads-bytes_of =
    ap (λ b. take 940 (stream many_msgs) ++ b) (append-nil (drop 940 (stream many_msgs)))
    ∙ take-drop 940 (stream many_msgs)

do_read_msg-stream_example :
    do_read_msg a_server many_reads ≡ returned false (handle_all (unheld many_msgs) a_server)
do_read_msg-stream_example =
    do_read_msg-stream a_server many_reads many_msgs many_reads-AreLong (inl many_msgs-EndsTaken)
      many_msgs-AllWellSent many_reads-bytes_of

do_read_msg-short_read_example :
    do_read_msg a_server (bytes (take 20 (message_bytes malloc_msg)) ∷ failed ∷ [])
    ≡ returned false a_server
do_read_msg-short_read_example =
    do_read_msg-short_read a_server malloc_msg (take 20 (message_bytes malloc_msg))
      (drop 20 (message_bytes malloc_msg)) [] (failed ∷ []) malloc_msg-IsWellSent
      (take-drop 20 (message_bytes malloc_msg) ∙ sym (append-nil (message_bytes malloc_msg)))
      (omega (arith, length-take 20 (message_bytes malloc_msg)))

-- Two clients; the second ends with a backtrace.
abbrev traced_msgs : List Message
traced_msgs = replicate 20 malloc_msg ++ trace_msg ∷ []

abbrev two_clients : List Client
two_clients =
    record { reads = many_reads; sends = many_msgs }
    ∷ record { reads = bytes (stream traced_msgs) ∷ []; sends = traced_msgs }
    ∷ []

traced-length : (n : ℕ) → length (stream (replicate n malloc_msg ++ trace_msg ∷ [])) ≡ 59 * n + 436
unfolding stream
traced-length zero = omega (arith, length-stream_cons trace_msg [] trace_msg-IsWellSent)
traced-length (suc n) = omega (
  arith,
  length-stream_cons malloc_msg (replicate n malloc_msg ++ trace_msg ∷ []) malloc_msg-IsWellSent,
  traced-length n,
)

two_clients-AreServed : AreServed two_clients
unfolding bytes_of
two_clients-AreServed = (
  (many_reads-AreLong, inl many_msgs-EndsTaken, many_msgs-AllWellSent, many_reads-bytes_of),
  (
    (
      (omega (arith, traced-length 20), omega (arith, traced-length 20)),
      inr (omega (arith, traced-length 20)),
      AllWellSent-append many_msgs (trace_msg ∷ []) many_msgs-AllWellSent
          (trace_msg-IsWellSent, tt),
      append-nil _,
    ),
    tt,
  ),
)

abbrev new_pipe : PipeFile
new_pipe = record { exists = false; mkfifo_works = true }

run_named_pipe-sessions_example :
    run_named_pipe new_pipe (sessions_of two_clients) a_server
    ≡ returned waiting (serve_all two_clients a_server)
run_named_pipe-sessions_example =
    run_named_pipe-sessions new_pipe two_clients a_server refl two_clients-AreServed

run_named_pipe-stops_example :
    run_named_pipe new_pipe (sessions_of two_clients ++ open_failed ∷ []) a_server
    ≡ returned stopped (serve_all two_clients a_server)
run_named_pipe-stops_example =
    run_named_pipe-stops new_pipe two_clients [] a_server refl two_clients-AreServed

on_pending_datagram_to_read-messages_example :
    on_pending_datagram_to_read (datagrams_of two_clients) a_server
    ≡ returned false (serve_all two_clients a_server)
on_pending_datagram_to_read-messages_example =
    on_pending_datagram_to_read-messages two_clients a_server two_clients-AreServed

-- A pipe that gives 2048 bytes at a time while there are at least twice as many, and then the rest.
in_pieces : ℕ → List ℕ → List Read
in_pieces zero bs = []
in_pieces (suc f) bs =
    let rest = in_pieces f (drop 2048 bs) in
    if ltb (length bs) 4096 then bytes bs ∷ [] else bytes (take 2048 bs) ∷ rest

pub pieces : List ℕ → List Read
pieces bs = in_pieces (suc (length bs)) bs

piece-AreAllLong :
    (bs : List ℕ) (rs : List Read)
    → (932 ≤ length bs) × (length bs ≤ 4096)
    → AreAllLong rs
    → AreAllLong (bytes bs ∷ rs)
piece-AreAllLong bs [] fits long = ((omega arith, fits.1), fits.0)
piece-AreAllLong bs (r ∷ rs) fits long = ((fits.0, fits.1, long.0), long.1)

in_pieces-AreAllLong : (f : ℕ) (bs : List ℕ) → 932 ≤ length bs → AreAllLong (in_pieces f bs)
unfolding in_pieces
in_pieces-AreAllLong zero bs h = (tt, tt)
in_pieces-AreAllLong (suc f) bs h = elim (Bool-cases (ltb (length bs) 4096)) [
  | inl e ↦ rw e ((omega arith, omega (arith, ltb→lt (length bs) 4096 e)), h)
  | inr e ↦
      let more = ltb→ge (length bs) 4096 e in
      rw e (
        piece-AreAllLong (take 2048 bs) (in_pieces f (drop 2048 bs))
          (omega (arith, length-take 2048 bs), omega (arith, length-take 2048 bs))
          (in_pieces-AreAllLong f (drop 2048 bs) (omega (arith, length-drop 2048 bs))))
]

in_pieces-bytes_of : (f : ℕ) (bs : List ℕ) → length bs < f → bytes_of (in_pieces f bs) ≡ bs
unfolding in_pieces bytes_of
in_pieces-bytes_of zero bs h = absurd (omega arith)
in_pieces-bytes_of (suc f) bs h = elim (Bool-cases (ltb (length bs) 4096)) [
  | inl e ↦ rw e (append-nil bs)
  | inr e ↦
      let more = ltb→ge (length bs) 4096 e in
      rw e (
        ap (λ c. take 2048 bs ++ c)
          (in_pieces-bytes_of f (drop 2048 bs) (omega (arith, length-drop 2048 bs)))
        ∙ take-drop 2048 bs)
]

pub pieces-AreAllLong : (bs : List ℕ) → 932 ≤ length bs → AreAllLong (pieces bs)
unfolding pieces
pieces-AreAllLong bs h = in_pieces-AreAllLong (suc (length bs)) bs h

pub pieces-bytes_of : (bs : List ℕ) → bytes_of (pieces bs) ≡ bs
unfolding pieces
pieces-bytes_of bs = in_pieces-bytes_of (suc (length bs)) bs (omega arith)

run_library-IsReceived_example :
    Ends (IsReceived first_receiver pieces (all_say many_calls)) (run_library an_env many_calls)
run_library-IsReceived_example =
    run_library-IsReceived first_receiver pieces an_env many_calls an_env-EnvFits (refl, (2, refl))
      many_calls-fit enough_said pieces-AreAllLong pieces-bytes_of

run_library-IsServed_example :
    Ends (IsServed new_pipe pieces (all_say many_calls)) (run_library an_env many_calls)
run_library-IsServed_example =
    run_library-IsServed an_env new_pipe pieces many_calls an_env-EnvFits (refl, (2, refl))
      many_calls-fit refl enough_said pieces-AreAllLong pieces-bytes_of

-- Three connections, of which the second comes while the first is there.
abbrev some_events : List SocketEvent
some_events =
    SocketEvent.connected (some 7)
    ∷ SocketEvent.connected (some 8)
    ∷ SocketEvent.disconnected
    ∷ SocketEvent.connected (some 9)
    ∷ []

abbrev no_sockets : SocketState
no_sockets = record { tcp_client_socket = none; closed = [] }

run_sockets-held_example :
    (u : SocketState) × (run_sockets some_events no_sockets ≡ some u)
    × Perm (held u) (held no_sockets ++ came some_events)
run_sockets-held_example = run_sockets-held some_events no_sockets tt

do_read_msg-overlap_example :
    do_read_msg a_server
      (bytes (stream (replicate 2 malloc_msg) ++ message_bytes trace_msg) ∷ failed ∷ [])
    ≡ fault overlapping_copy
do_read_msg-overlap_example =
    do_read_msg-overlap a_server (failed ∷ []) (replicate 2 malloc_msg) (a_header 41) a_trace
      (mallocs-AllWellSent 2) trace_msg-IsWellSent (omega (arith, mallocs-length 2))
      (omega (arith, mallocs-length 2, length-message_bytes trace_msg trace_msg-IsWellSent))
