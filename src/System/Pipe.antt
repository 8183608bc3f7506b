-- ===== src/System/Pipe.antt =====
-- The library (lib) and the server together over the named pipe: `run` of MemOpRcptServer.cpp reads, in
-- pieces, what the library writes.
use aleakd.Client.Comm.Ends.{Ends, Ends-map}
use aleakd.Client.Calls.Received.{AllWellSent-unheld, unheld-said, sent-long}
use aleakd.Base.{◌≤◌, inr, length, ℕ, ◌||◌, ◌≡◌, ◌∙◌, true, List, [], ◌∷◌}
use aleakd.Shared.Messages.{Message}
use aleakd.Server.Process.{returned}
use aleakd.Server.Process.Stream.{handle_all}
use aleakd.Server.Process.Held.{unheld}
use aleakd.Server.Reader.{Read}
use aleakd.Server.Reader.Chunks.{bytes_of, AreAllLong}
use aleakd.Server.Service.{PipeFile, session, waiting, run_named_pipe}
use aleakd.Server.Service.Sessions.{serve_all, run_named_pipe-sessions}
use aleakd.Controller.Accounting.Invariant.{IsAccounted}
use aleakd.Client.Comm.Buffer.{concat}
use aleakd.Client.Wrapper.{Env, Wrapper}
use aleakd.Client.Wrapper.Sends.{EnvFits, Said, said}
use aleakd.Client.Calls.{Call, run_library}
use aleakd.Client.Calls.Says.{CallsFit, all_say}
use aleakd.Client.Calls.Library.{HasDelivered, IsConnectable, run_library-HasDelivered}
use aleakd.System.{first_receiver, shown}

-- The receiver has read what the library has written, from a pipe that cuts it into reads, as messages
-- that say `what`; it waits for the next client, and its accounts are right.
abbrev pub IsServed : PipeFile → (List ℕ → List Read) → List Said → Wrapper → Type 0
IsServed f cut what w =
    (ms : List Message) × (said ms ≡ what)
    × (run_named_pipe f (session (cut (concat w.comm.sent)) ∷ []) first_receiver
        ≡ returned waiting (handle_all ms first_receiver))
    × (let c = (handle_all ms first_receiver).handler_state in
        IsAccounted c.operations c.global_stats)

-- A program runs under the library, and the server reads the named pipe between them, which gives
-- the bytes in reads of at least 932 and at most 4096. The server takes messages that report the
-- calls, in their order, then waits for the next client, and its accounts are right: the remaining
-- size is that of its operations that are not freed, and the allocated size is the freed and the
-- remaining size together, modulo 2 ^ 64. At least 16 calls are reported, as `says` lists them: a
-- `calloc` with the size of one element, and a `realloc` that gives a null pointer not at all. The
-- library has a pipe to open, the values fit 64 bits, the traces have at most 50 addresses, and the
-- names of threads, objects and symbols leave room for a closing 0.
pub run_library-IsServed :
    (env : Env) (f : PipeFile) (cut : List ℕ → List Read) (calls : List Call)
    → EnvFits env
    → IsConnectable env
    → CallsFit calls
    → (f.exists || f.mkfifo_works) ≡ true
    → 16 ≤ length (all_say calls)
    → ((bs : List ℕ) → 932 ≤ length bs → AreAllLong (cut bs))
    → ((bs : List ℕ) → bytes_of (cut bs) ≡ bs)
    → Ends (IsServed f cut (all_say calls)) (run_library env calls)
unfolding serve_all
run_library-IsServed env f cut calls fits pipe ok there enough long same =
    Ends-map (HasDelivered (all_say calls)) (IsServed f cut (all_say calls)) (run_library env calls)
      (run_library-HasDelivered env fits pipe calls ok)
      λ w (ms, well, says_what, sent).
        let bs = concat w.comm.sent in
        let (more, last) = long bs (sent-long ms (all_say calls) bs well says_what sent enough) in
        let says = unheld-said ms ∙ says_what in
        (
          unheld ms,
          says,
          run_named_pipe-sessions f (record { reads = cut bs; sends = ms } ∷ []) first_receiver
              there ((more, inr last, well, same bs ∙ sent), tt),
          shown calls (unheld ms) (AllWellSent-unheld ms well) says,
        )
