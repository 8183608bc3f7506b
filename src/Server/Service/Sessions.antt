-- ===== src/Server/Service/Sessions.antt =====
-- The sessions that `run` of MemOpRcptServer.cpp serves, one client after the other.
use aleakd.Base.{
  ◌⊎◌, ◌-◌, arith, zero, ◌||◌, ◌+◌, ℤ, pos, negsuc, ◌++◌, length, sym, append-nil, ◌+◌, negsuc,
  length, pos, ℤ, ◌++◌, ℕ, suc, ◌≡◌, refl, ap, ◌∙◌, Bool, true, false, List, [], ◌∷◌, ltb,
  if◌then◌else◌,
}
use aleakd.Shared.Messages.{Message}
use aleakd.Server.Handler.{Server}
use aleakd.Server.Process.{
  Fault, overlapping_copy, write_past_end, Result, returned, fault, out_of_fuel, process_data_read,
}
use aleakd.Server.Process.Stream.{stream, handle_all, AllWellSent, EndsTaken}
use aleakd.Server.Process.Held.{unheld, unheld_empty}
use aleakd.Server.Reader.{Read, bytes, failed, after_process, read_loop, do_read_msg}
use aleakd.Server.Reader.Chunks.{bytes_of, AreLong, LastIsLong, do_read_msg-stream}
use aleakd.Server.Service.{
  Opened, session, open_failed, waiting, stopped, PipeFile, again, read_all, then_go_on, serve_pipe,
  run_named_pipe, on_pending_datagram_to_read,
}

-- A client: the reads that its pipe gives, and the messages that it sends.
pub record Client : Type 0 where
  pub reads : List Read
  pub sends : List Message

-- The messages of a client come in long reads; the last may be short where the last message is no
-- backtrace.
abbrev pub AreServed : List Client → Type 0
AreServed [] = Unit {0}
AreServed (c ∷ cs) =
    (AreLong c.reads
      × (EndsTaken c.sends ⊎ LastIsLong c.reads)
      × AllWellSent c.sends
      × (bytes_of c.reads ≡ stream c.sends))
    × AreServed cs

abbrev pub sessions_of : List Client → List Opened
sessions_of [] = []
sessions_of (c ∷ cs) = session c.reads ∷ sessions_of cs

abbrev pub datagrams_of : List Client → List (List Read)
datagrams_of [] = []
datagrams_of (c ∷ cs) = c.reads ∷ datagrams_of cs

module _ {H : Type 0} where
  -- The result is not true.
  abbrev IsNotTrue : Result H Bool → Type 0
  IsNotTrue (returned true s) = ⊥
  IsNotTrue _ = Unit {0}

  faulty-IsNotTrue :
      (c : Bool) (f : Fault) (r : Result H Bool)
      → IsNotTrue r
      → IsNotTrue (if c then fault f else r)
  faulty-IsNotTrue true f r e = tt
  faulty-IsNotTrue false f r e = e

  after_process-IsNotTrue :
      (continue : List ℕ → Server H → Result H Bool) (buf : List ℕ) (r : Result H ℤ)
      → ((rest : List ℕ) (t : Server H) → IsNotTrue (continue rest t))
      → IsNotTrue (after_process continue buf r)
  unfolding after_process
  after_process-IsNotTrue continue buf (returned (pos zero) s) go = tt
  after_process-IsNotTrue continue buf (returned (pos (suc n)) s) go =
      faulty-IsNotTrue (ltb (suc n) (length buf - suc n)) overlapping_copy _ (go _ s)
  after_process-IsNotTrue continue buf (returned (negsuc n) s) go = tt
  after_process-IsNotTrue continue buf (fault f) go = tt
  after_process-IsNotTrue continue buf out_of_fuel go = tt

  read_loop-IsNotTrue :
      (buf : List ℕ) (rs : List Read) (s : Server H) → IsNotTrue (read_loop buf rs s)
  unfolding read_loop
  read_loop-IsNotTrue buf [] s = tt
  read_loop-IsNotTrue buf (failed ∷ rs) s = read_loop-IsNotTrue buf rs s
  read_loop-IsNotTrue buf (bytes [] ∷ rs) s = tt
  read_loop-IsNotTrue buf (bytes (b ∷ bs) ∷ rs) s =
      faulty-IsNotTrue (ltb 8192 (length buf + length (b ∷ bs))) write_past_end _ (
        after_process-IsNotTrue _ (buf ++ b ∷ bs) (process_data_read s (buf ++ b ∷ bs))
          λ rest t. read_loop-IsNotTrue rest rs t)

  again-IsNotTrue :
      (continue : Server H → Result H Bool) (r : Result H Bool) → IsNotTrue r → again continue r ≡ r
  unfolding again
  again-IsNotTrue continue (returned true s) e = absurd e
  again-IsNotTrue continue (returned false s) e = refl
  again-IsNotTrue continue (fault f) e = refl
  again-IsNotTrue continue out_of_fuel e = refl

  -- The loop around `doReadMsg` makes one call, whatever the fuel: its result is never true.
  pub read_all-do_read_msg :
      (fuel : ℕ) (s : Server H) (rs : List Read) → read_all (suc fuel) s rs ≡ do_read_msg s rs
  unfolding read_all do_read_msg
  read_all-do_read_msg fuel s rs =
      again-IsNotTrue (λ t. read_all fuel t []) (read_loop [] rs s) (read_loop-IsNotTrue [] rs s)

  -- The receiver after the messages of several clients.
  unfoldable pub serve_all : List Client → Server H → Server H
  serve_all [] s = s
  serve_all (c ∷ cs) s = serve_all cs (handle_all (unheld c.sends) s)

  serve_pipe-sessions :
      (cs : List Client) (os : List Opened) (s : Server H)
      → AreServed cs
      → serve_pipe (sessions_of cs ++ os) s ≡ serve_pipe os (serve_all cs s)
  unfolding serve_pipe serve_all then_go_on
  serve_pipe-sessions [] os s w = refl
  serve_pipe-sessions (c ∷ cs) os s w =
      ap (then_go_on (λ t. serve_pipe (sessions_of cs ++ os) t)) (
        read_all-do_read_msg 0 s c.reads
        ∙ do_read_msg-stream s c.reads c.sends w.0.0 w.0.1 w.0.2 w.0.3)
      ∙ serve_pipe-sessions cs os (handle_all (unheld c.sends) s) w.1

  -- With a pipe that exists or that can be made, the receiver serves any number of clients, one after
  -- the other, and then waits for the next one. The messages of a client come in reads of which all but
  -- the last give at least 932 bytes, and the last one too where a backtrace is the last message; every
  -- message is delivered and counted, but for such a backtrace.
  pub run_named_pipe-sessions :
      (f : PipeFile) (cs : List Client) (s : Server H)
      → (f.exists || f.mkfifo_works) ≡ true
      → AreServed cs
      → run_named_pipe f (sessions_of cs) s ≡ returned waiting (serve_all cs s)
  unfolding run_named_pipe serve_pipe
  run_named_pipe-sessions f cs s there w = rw there (
      ap (λ os. serve_pipe os s) (sym (append-nil (sessions_of cs)))
      ∙ serve_pipe-sessions cs [] s w)

  -- With a pipe that exists or that can be made, clients as they are served above, and then an `open`
  -- that fails: the loop ends, with every client served in order.
  pub run_named_pipe-stops :
      (f : PipeFile) (cs : List Client) (os : List Opened) (s : Server H)
      → (f.exists || f.mkfifo_works) ≡ true
      → AreServed cs
      → run_named_pipe f (sessions_of cs ++ open_failed ∷ os) s ≡ returned stopped (serve_all cs s)
  unfolding run_named_pipe serve_pipe
  run_named_pipe-stops f cs os s there w = rw there (serve_pipe-sessions cs (open_failed ∷ os) s w)

  datagram :
      (rs : List Read) (ms : List Message) (ds : List (List Read)) (s : Server H)
      → AreLong rs
      → EndsTaken ms ⊎ LastIsLong rs
      → AllWellSent ms
      → bytes_of rs ≡ stream ms
      → on_pending_datagram_to_read (rs ∷ ds) s
        ≡ on_pending_datagram_to_read ds (handle_all (unheld ms) s)
  unfolding on_pending_datagram_to_read then_go_on bytes_of handle_all
  datagram [] ms ds s long ends w e =
      ap (λ l. on_pending_datagram_to_read ds (handle_all l s))
        (sym (unheld_empty ms w (omega (arith, ap length e))))
  datagram (r ∷ rs) ms ds s long ends w e =
      ap (then_go_on (λ t. on_pending_datagram_to_read ds t))
        (do_read_msg-stream s (r ∷ rs) ms long ends w e)

  -- Datagrams that hold whole messages are read one after the other, and every message is delivered and
  -- counted but for a backtrace at the end of its datagram. A datagram comes in reads of which all but
  -- the last give at least 932 bytes, and the last one too where a backtrace is the last message.
  pub on_pending_datagram_to_read-messages :
      (cs : List Client) (s : Server H)
      → AreServed cs
      → on_pending_datagram_to_read (datagrams_of cs) s ≡ returned false (serve_all cs s)
  unfolding on_pending_datagram_to_read serve_all
  on_pending_datagram_to_read-messages [] s w = refl
  on_pending_datagram_to_read-messages (c ∷ cs) s w =
      datagram c.reads c.sends (datagrams_of cs) s w.0.0 w.0.1 w.0.2 w.0.3
      ∙ on_pending_datagram_to_read-messages cs (handle_all (unheld c.sends) s) w.1
