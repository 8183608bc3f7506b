-- ===== src/Server/Reader/Chunks.antt =====
-- `doReadMsg` of MemOpRcptServer.cpp on a stream of messages of the client that arrives in pieces: the
-- device gives it in reads that end anywhere inside a message.
use aleakd.Base.{
  ◌⊎◌, inl, ◌-◌, inr, ℕ, zero, suc, ◌+◌, ◌≤◌, ◌<◌, ◌≡◌, refl, sym, ap, ◌∙◌, Bool, false, pos, List,
  [], ◌∷◌, ◌++◌, append_assoc, length, drop, length-append, drop-append_exact, ge→ltb, arith,
}
use aleakd.Shared.Messages.{Message}
use aleakd.Server.Handler.{Server}
use aleakd.Server.Process.{Result, returned, process_data_read}
use aleakd.Server.Process.Stream.{
  stream, handle_all, AllWellSent, EndsTaken, process_data_read-stream,
}
use aleakd.Server.Process.Cut.{Cut, cut, needed-le_467}
use aleakd.Server.Process.Held.{unheld, unheld_empty, unheld_nothing}
use aleakd.Server.Process.Prefix.{process_msg-prefix}
use aleakd.Server.Process.Decode.{IsWellSent, needed}
use aleakd.Shared.Messages.{message_bytes}
use aleakd.Server.Reader.{Read, bytes, failed, read_size, after_process, read_loop, do_read_msg}

-- All the bytes that the reads give.
unfoldable pub bytes_of : List Read → List ℕ
bytes_of [] = []
bytes_of (failed ∷ rs) = bytes_of rs
bytes_of (bytes bs ∷ rs) = bs ++ bytes_of rs

-- Every read gives something and no more than it was asked for, and every read but the last gives at
-- least 932 bytes: twice the 466 that may be left behind the whole messages.
abbrev pub AreLong : List Read → Type 0
AreLong [] = Unit {0}
AreLong (failed ∷ rs) = AreLong rs
AreLong (bytes bs ∷ []) = (0 < length bs) × (length bs ≤ read_size)
AreLong (bytes bs ∷ r ∷ rs) = (932 ≤ length bs) × (length bs ≤ read_size) × AreLong (r ∷ rs)

-- The last read gives as many bytes too.
abbrev pub LastIsLong : List Read → Type 0
LastIsLong [] = Unit {0}
LastIsLong (failed ∷ rs) = LastIsLong rs
LastIsLong (bytes bs ∷ []) = 932 ≤ length bs
LastIsLong (bytes bs ∷ r ∷ rs) = LastIsLong (r ∷ rs)

-- All reads give at least 932 bytes.
abbrev pub AreAllLong : List Read → Type 0
AreAllLong rs = AreLong rs × LastIsLong rs

module _ {H : Type 0} where
  after_process-pos :
      (continue : List ℕ → Server H → Result H Bool) (buf : List ℕ) (n : ℕ) (s : Server H)
      → 0 < n
      → length buf ≤ n + n
      → after_process continue buf (returned (pos n) s) ≡ continue (drop n buf) s
  unfolding after_process
  after_process-pos continue buf zero s some_bytes apart = absurd (omega arith)
  after_process-pos continue buf (suc n) s some_bytes apart =
      rw (ge→ltb (suc n) (length buf - suc n) (omega arith)) refl

  -- A read that completes a message: what it completes is delivered, and the loop goes on with the
  -- rest.
  loop-read :
      (buf bs : List ℕ) (rs : List Read) (s : Server H) (ms : List Message) (rest : List ℕ)
      → 0 < length bs
      → length bs ≤ read_size
      → length buf < 467
      → process_data_read s (buf ++ bs) ≡ returned (pos (length (stream ms))) (handle_all ms s)
      → buf ++ bs ≡ stream ms ++ rest
      → 0 < length (stream ms)
      → length rest ≤ length (stream ms)
      → read_loop buf (bytes bs ∷ rs) s ≡ read_loop rest rs (handle_all ms s)
  unfolding read_loop
  loop-read buf [] rs s ms rest some_bytes fits short e parts done apart = absurd (omega arith)
  loop-read buf (b ∷ bs) rs s ms rest some_bytes fits short e parts done apart =
      rw (ge→ltb 8192 (length buf + length (b ∷ bs)) (omega arith)) (
        ap (after_process (λ r t. read_loop r rs t) (buf ++ b ∷ bs)) e
        ∙ after_process-pos (λ r t. read_loop r rs t) (buf ++ b ∷ bs) (length (stream ms))
            (handle_all ms s) done (omega (arith, ap length parts, length-append (stream ms) rest))
        ∙ ap (λ r. read_loop r rs (handle_all ms s))
            (ap (drop (length (stream ms))) parts
              ∙ drop-append_exact (length (stream ms)) (stream ms) rest refl))

  -- A read that is not the last one: it ends inside a message, or behind one.
  loop-cut :
      (buf bs : List ℕ) (rs : List Read) (s : Server H) (ms : List Message)
      → 932 ≤ length bs
      → length bs ≤ read_size
      → length buf < 467
      → (c : Cut H ms (buf ++ bs) (bytes_of rs))
      → (read_loop c.rest rs (handle_all c.taken s)
          ≡ returned false (handle_all (unheld c.left) (handle_all c.taken s)))
      → read_loop buf (bytes bs ∷ rs) s ≡ returned false (handle_all (unheld ms) s)
  loop-cut buf bs rs s ms long fits short c go =
      loop-read buf bs rs s c.taken c.rest (omega arith) fits short
        (ap (process_data_read s) c.parts
          ∙ process_data_read-stream c.taken c.rest s c.takes (c.pending (handle_all c.taken s)))
        c.parts
        (omega (
          arith,
          c.short,
          length-append buf bs,
          ap length c.parts,
          length-append (stream c.taken) c.rest,
        ))
        (omega (
          arith,
          c.short,
          length-append buf bs,
          ap length c.parts,
          length-append (stream c.taken) c.rest,
        ))
      ∙ go
      ∙ ap (returned false) (sym (c.same s))

  after_process-last :
      (buf : List ℕ) (n : ℕ) (s : Server H)
      → length buf ≤ n + n
      → after_process (λ r t. read_loop r [] t) buf (returned (pos n) s) ≡ returned false s
  unfolding after_process read_loop
  after_process-last buf zero s apart = refl
  after_process-last buf (suc n) s apart =
      rw (ge→ltb (suc n) (length buf - suc n) (omega arith)) refl

  -- What is left behind the last read is not longer than what it completes.
  last_rest :
      (buf bs : List ℕ) (ms : List Message) (c : Cut H ms (buf ++ bs) [])
      → EndsTaken ms ⊎ (932 ≤ length bs)
      → length (buf ++ bs) ≤ length (stream c.taken) + length (stream c.taken)
  last_rest buf bs ms c (inl t) =
      let none_left = unheld_nothing c.left (c.whole refl) (c.ends t) in
      omega (
        arith,
        ap length c.parts,
        length-append (stream c.taken) c.rest,
        ap length c.behind,
        ap length none_left,
        length-append c.rest [],
      )
  last_rest buf bs ms c (inr long) = omega (
    arith,
    c.short,
    length-append buf bs,
    ap length c.parts,
    length-append (stream c.taken) c.rest,
  )

  -- The last read brings all that was missing.
  loop-last :
      (buf bs : List ℕ) (s : Server H) (ms : List Message)
      → 0 < length bs
      → length bs ≤ read_size
      → length buf < 467
      → EndsTaken ms ⊎ (932 ≤ length bs)
      → Cut H ms (buf ++ bs) []
      → read_loop buf (bytes bs ∷ []) s ≡ returned false (handle_all (unheld ms) s)
  unfolding read_loop handle_all
  loop-last buf [] s ms some_bytes fits short ends c = absurd (omega arith)
  loop-last buf (b ∷ bs) s ms some_bytes fits short ends c =
      rw (ge→ltb 8192 (length buf + length (b ∷ bs)) (omega arith)) (
        ap (after_process (λ r t. read_loop r [] t) (buf ++ b ∷ bs)) (
          ap (process_data_read s) c.parts
          ∙ process_data_read-stream c.taken c.rest s c.takes (c.pending (handle_all c.taken s)))
        ∙ after_process-last (buf ++ b ∷ bs) (length (stream c.taken)) (handle_all c.taken s)
            (last_rest buf (b ∷ bs) ms c ends)
        ∙ ap (returned false)
            (sym (c.same s ∙ ap (λ l. handle_all l (handle_all c.taken s)) (c.whole refl))))

  still_ends :
      {L : Type 0} (ms : List Message) (p q : List ℕ) (c : Cut H ms p q)
      → EndsTaken ms ⊎ L
      → EndsTaken c.left ⊎ L
  still_ends ms p q c (inl t) = inl (c.ends t)
  still_ends ms p q c (inr l) = inr l

  read_loop-stream :
      (buf : List ℕ) (rs : List Read) (s : Server H) (ms : List Message)
      → length buf < 467
      → AreLong rs
      → EndsTaken ms ⊎ LastIsLong rs
      → AllWellSent ms
      → buf ++ bytes_of rs ≡ stream ms
      → (bytes_of rs ≡ [] → unheld ms ≡ [])
      → read_loop buf rs s ≡ returned false (handle_all (unheld ms) s)
  unfolding bytes_of read_loop handle_all
  read_loop-stream buf [] s ms short long ends w parts empty =
      ap (returned false) (sym (ap (λ l. handle_all l s) (empty refl)))
  read_loop-stream buf (failed ∷ rs) s ms short long ends w parts empty =
      read_loop-stream buf rs s ms short long ends w parts empty
  read_loop-stream buf (bytes bs ∷ []) s ms short long ends w parts empty =
      loop-last buf bs s ms long.0 long.1 short ends
        (cut ms (buf ++ bs) [] w (append_assoc buf bs [] ∙ parts))
  read_loop-stream buf (bytes bs ∷ r ∷ rs) s ms short (long, fits, more) ends w parts empty =
      let c = cut ms (buf ++ bs) (bytes_of (r ∷ rs)) w (append_assoc buf bs _ ∙ parts) in
      loop-cut buf bs (r ∷ rs) s ms long fits short c (
        read_loop-stream c.rest (r ∷ rs) (handle_all c.taken s) c.left c.short more
          (still_ends ms _ _ c ends) c.well c.behind c.whole)

  -- However the device cuts the messages of the client into reads, of which every one but the last gives
  -- at least 932 bytes and none more than the 4096 asked for: `doReadMsg` delivers and counts every
  -- message, in order, and ends with the result false, and no copy in its buffer overlaps. Where the last
  -- message is a backtrace, which is then held back, the last read has at least 932 bytes too. Reads that
  -- fail in between change nothing.
  pub do_read_msg-stream :
      (s : Server H) (rs : List Read) (ms : List Message)
      → AreLong rs
      → EndsTaken ms ⊎ LastIsLong rs
      → AllWellSent ms
      → bytes_of rs ≡ stream ms
      → do_read_msg s rs ≡ returned false (handle_all (unheld ms) s)
  unfolding do_read_msg
  do_read_msg-stream s rs ms long ends w parts =
      read_loop-stream [] rs s ms (omega arith) long ends w parts
        (λ e. unheld_empty ms w (omega (arith, ap length (sym parts ∙ e))))

  -- A first read that ends before the server has all that it wants to see for the first message:
  -- nothing is delivered, and the loop ends, whatever the later reads would give.
  pub do_read_msg-short_read :
      (s : Server H) (m : Message) (p q rest : List ℕ) (rs : List Read)
      → IsWellSent m
      → p ++ q ≡ message_bytes m ++ rest
      → length p < needed m
      → do_read_msg s (bytes p ∷ rs) ≡ returned false s
  unfolding do_read_msg read_loop after_process stream handle_all
  do_read_msg-short_read s m [] q rest rs w parts few = refl
  do_read_msg-short_read s m (b ∷ p) q rest rs w parts few =
      rw (ge→ltb 8192 (0 + length (b ∷ p)) (omega (arith, needed-le_467 m))) (
        ap (after_process (λ r t. read_loop r rs t) (b ∷ p)) (
          process_data_read-stream [] (b ∷ p) s tt
            (inr (process_msg-prefix s m (b ∷ p) q rest w parts few))))
