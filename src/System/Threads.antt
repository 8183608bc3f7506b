-- ===== src/System/Threads.antt =====
-- The server on the pipe that several threads of the program fill through lib/server-comm.c.
use aleakd.Client.Wrapper.Sends.{stream-append, AllWellSent-append}
use aleakd.Shared.Messages.{Message}
use aleakd.Base.{
  inr, ◌≤◌, length, length-append, arith, sym, ℕ, ◌≡◌, refl, ap, ◌∙◌, false, List, [], ◌∷◌, ◌++◌,
}
use aleakd.Client.Comm.{Comm, dispose}
use aleakd.Client.Comm.Ends.{Ends, Ends-map, Ends-IfEnds}
use aleakd.Client.Comm.Buffer.{IsBuffering, concat, dispose-written}
use aleakd.Client.Interleaved.{made_bytes, Request, Made, run_schedule, new_world}
use aleakd.Client.Interleaved.Sent.{work}
use aleakd.Client.Interleaved.Stream.{
  Keeps, given, given-AllSmall, new_world-Keeps, run_schedule-Keeps,
}
use aleakd.Client.Interleaved.Fits.{
  AllThreadsFit, AllThreadsFit-small, IsFitting, messages, new_world-IsFitting,
}
use aleakd.Server.Handler.{Server}
use aleakd.Server.Process.{returned}
use aleakd.Server.Process.Stream.{AllWellSent, stream, handle_all}
use aleakd.Server.Process.Held.{unheld}
use aleakd.Server.Reader.{Read, do_read_msg}
use aleakd.Server.Reader.Chunks.{bytes_of, AreAllLong, do_read_msg-stream}

-- The bytes of what was sent are those of the messages.
stream-messages :
    (ms : List (ℕ × Made)) → aleakd.Client.Interleaved.Sent.stream ms ≡ stream (messages ms)
unfolding stream aleakd.Client.Interleaved.Sent.stream
stream-messages [] = refl
stream-messages ((i, m) ∷ ms) = ap (◌++◌ (made_bytes m)) (stream-messages ms)

module _ {H : Type 0} (s : Server H) (cut : List ℕ → List Read) where
  -- Several threads send, in whatever order their steps follow one another, over a connection that has
  -- sent the messages of `before`, of 932 bytes or more, and then the library is closed; the pipe gives
  -- the bytes in reads of at least 932 and at most 4096. Every step comes back, and `doReadMsg` delivers
  -- and counts the messages in the order in which they were sent, but for a backtrace that comes last.
  -- What each thread has sent, the message that it holds and what is left to it are together what it
  -- was given, in its order. The fields of the messages fit their types.
  pub run_schedule-do_read_msg :
      (schedule : List ℕ) (c : Comm) (rss : List (List Request)) (before : List Message)
      → AllWellSent before
      → 932 ≤ length (stream before)
      → IsBuffering (stream before) c
      → AllThreadsFit rss
      → ((bs : List ℕ) → 932 ≤ length bs → AreAllLong (cut bs))
      → ((bs : List ℕ) → bytes_of (cut bs) ≡ bs)
      → Ends
          (λ w.
            (do_read_msg s (cut (concat (dispose w.comm).sent))
              ≡ returned false (handle_all (unheld (before ++ messages w.log)) s))
            × ((i : ℕ) → work i w ≡ given rss i))
          (run_schedule schedule (new_world c rss))
  run_schedule-do_read_msg schedule c rss before well enough buffering fit long same =
      let r = run_schedule schedule (new_world c rss) in
      let small = AllThreadsFit-small rss fit in
      Ends-map (λ w. Keeps (stream before) (given rss) w × IsFitting w) _ r
        (Ends-IfEnds (Keeps (stream before) (given rss)) IsFitting r
          (run_schedule-Keeps (stream before) (given rss) (given-AllSmall rss small) schedule
            (new_world c rss) (new_world-Keeps c rss (stream before) buffering))
          (new_world-IsFitting schedule c rss fit))
        λ w (k, f).
          let bs = concat (dispose w.comm).sent in
          let whole : bs ≡ stream (before ++ messages w.log) =
            dispose-written _ w.comm k.buffering
            ∙ ap (◌++◌ (stream before)) (stream-messages w.log)
            ∙ sym (stream-append before (messages w.log)) in
          let (more, last) = long bs (
            omega (
              arith,
              ap length whole,
              ap length (stream-append before (messages w.log)),
              length-append (stream before) (stream (messages w.log)),
            )) in
          (
            do_read_msg-stream s (cut bs) (before ++ messages w.log) more (inr last)
                (AllWellSent-append before (messages w.log) well f.sent) (same bs ∙ whole),
            k.same,
          )
