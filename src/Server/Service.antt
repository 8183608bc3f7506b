-- ===== src/Server/Service.antt =====
-- The thread of MemOpRcptServer.cpp: `run` with a named pipe, and the slots for sockets,
-- `onNewConnection`, `onSocketReadyToRead`, `onSocketDisconnected` and `onPendingDatagramToRead`.
pub mod Sessions
pub mod Sockets
use aleakd.Base.{
  if◌then◌else◌, ℕ, zero, suc, Bool, true, false, Option, none, some, List, [], ◌∷◌, ◌++◌, ◌||◌,
}
use aleakd.Server.Handler.{Server}
use aleakd.Server.Process.{Result, returned, fault, out_of_fuel}
use aleakd.Server.Reader.{Read, do_read_msg}

-- What `QFile::open` on the pipe gives: a failure, or a client with the reads up to its end.
pub data Opened : Type 0 where
  open_failed : Opened
  session : List Read → Opened

-- Where `run` is: `open` has not returned yet, or the loop is left and the pipe is removed.
pub data RunState : Type 0 where
  waiting stopped : RunState

-- What `run` finds: whether the file exists, and whether `mkfifo` succeeds.
pub record PipeFile : Type 0 where
  pub exists : Bool
  pub mkfifo_works : Bool

module _ {H : Type 0} where
  unfoldable pub again : (Server H → Result H Bool) → Result H Bool → Result H Bool
  again continue (returned true s) = continue s
  again continue r = r

  -- `while (doReadMsg(file)) { }`. A call that gave true would have read the device to its end, so a
  -- further call finds nothing.
  unfoldable pub read_all : ℕ → Server H → List Read → Result H Bool
  unfolding again
  read_all zero s rs = out_of_fuel
  read_all (suc fuel) s rs = again (λ t. read_all fuel t []) (do_read_msg s rs)

  -- `onSocketReadyToRead`: the same loop on the socket of the client.
  unfoldable pub on_socket_ready_to_read : Server H → List Read → Result H Bool
  unfolding read_all
  on_socket_ready_to_read s rs = read_all 1 s rs

  -- What stands behind a call whose result is not looked at.
  unfoldable pub then_go_on : {A : Type 0} → (Server H → Result H A) → Result H Bool → Result H A
  then_go_on continue (returned b s) = continue s
  then_go_on continue (fault f) = fault f
  then_go_on continue out_of_fuel = out_of_fuel

  -- The loop `while(bGoOn)` of `run` over the pipe, for the opens that have returned.
  unfoldable pub serve_pipe : List Opened → Server H → Result H RunState
  unfolding then_go_on
  serve_pipe [] s = returned waiting s
  serve_pipe (open_failed ∷ os) s = returned stopped s
  serve_pipe (session rs ∷ os) s = then_go_on (λ t. serve_pipe os t) (read_all 1 s rs)

  -- `run` for `TRANSFER_MODE_NAMEDPIPE`
  unfoldable pub run_named_pipe : PipeFile → List Opened → Server H → Result H RunState
  run_named_pipe f os s =
      let served = serve_pipe os s in
      if f.exists || f.mkfifo_works then served else returned stopped s

  -- `onPendingDatagramToRead`: a datagram is read through a buffer device, and an empty one is passed
  -- over.
  unfoldable pub on_pending_datagram_to_read : List (List Read) → Server H → Result H Bool
  unfolding then_go_on
  on_pending_datagram_to_read [] s = returned false s
  on_pending_datagram_to_read ([] ∷ ds) s = on_pending_datagram_to_read ds s
  on_pending_datagram_to_read ((r ∷ rs) ∷ ds) s =
      then_go_on (λ t. on_pending_datagram_to_read ds t) (do_read_msg s (r ∷ rs))

-- The socket that `m_pTcpClientSocket` points to, and the sockets that were closed.
pub record SocketState : Type 0 where
  pub tcp_client_socket : Option ℕ
  pub closed : List ℕ

-- The first connection becomes the client; another is closed.
unfoldable pub accept : ℕ → Option ℕ → List ℕ → SocketState
accept k none closed = record { tcp_client_socket = some k; closed = closed }
accept k (some c) closed = record { tcp_client_socket = some c; closed = closed ++ k ∷ [] }

-- `onNewConnection`, for the connection that is pending. Without one the source tests a pointer that
-- was never set.
unfoldable pub on_new_connection : Option ℕ → SocketState → Option SocketState
unfolding accept
on_new_connection none t = none
on_new_connection (some k) t = some (accept k t.tcp_client_socket t.closed)

unfoldable pub close_client : Option ℕ → List ℕ → SocketState
close_client none closed = record { tcp_client_socket = none; closed = closed }
close_client (some c) closed = record { tcp_client_socket = none; closed = closed ++ c ∷ [] }

-- `onSocketDisconnected`
unfoldable pub on_socket_disconnected : SocketState → SocketState
unfolding close_client
on_socket_disconnected t = close_client t.tcp_client_socket t.closed

-- What the event loop calls for the sockets.
pub data SocketEvent : Type 0 where
  connected : Option ℕ → SocketEvent
  disconnected : SocketEvent

-- The events of the loop, one after the other.
unfoldable pub run_sockets : List SocketEvent → SocketState → Option SocketState
run_sockets [] t = some t
run_sockets (connected k ∷ es) t = elim (on_new_connection k t) [
  | none ↦ none
  | some u ↦ run_sockets es u
]
run_sockets (disconnected ∷ es) t = run_sockets es (on_socket_disconnected t)
