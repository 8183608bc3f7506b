-- ===== src/Server/Reader/Buffer.antt =====
-- The 8192 bytes of `pBuffer` in `doReadMsg` of MemOpRcptServer.cpp: what is written to them, and what is
-- copied between them.
use aleakd.Base.{
  ltb, ltb→lt, ◌-◌, Bool-cases, inl, inr, length-append, ℕ, zero, suc, ◌+◌, ◌≤◌, ◌<◌, ◌≡◌, refl,
  Bool, false, ℤ, pos, negsuc, List, [], ◌∷◌, ◌++◌, length, drop, arith, length-drop, ge→ltb,
}
use aleakd.Server.Handler.{Server}
use aleakd.Server.Process.{
  Fault, read_past_end, write_past_end, overlapping_copy, Result, returned, fault, out_of_fuel,
  process_data_read,
}
use aleakd.Server.Process.Bounds.{Leaves, OnlyReads, process_data_read_bounds}
use aleakd.Server.Reader.{Read, bytes, failed, read_size, after_process, read_loop, do_read_msg}

-- No read gives more than it was asked for, and none gives less than `least` bytes.
abbrev pub AreReads : ℕ → List Read → Type 0
AreReads least [] = Unit {0}
AreReads least (failed ∷ rs) = AreReads least rs
AreReads least (bytes bs ∷ rs) = (least ≤ length bs) × (length bs ≤ read_size) × AreReads least rs

abbrev pub FaultFits : ℕ → Fault → Type 0
FaultFits least read_past_end = Unit {0}
FaultFits least write_past_end = ⊥
FaultFits least overlapping_copy = least < 932

-- The method returns false, reads past the end of an array of a message, or, where reads of less than
-- 932 bytes are possible, copies between parts of its buffer that overlap.
abbrev pub EndsSafely : {H : Type 0} → ℕ → Result H Bool → Type 0
EndsSafely least (returned b s) = b ≡ false
EndsSafely least (fault f) = FaultFits least f
EndsSafely least out_of_fuel = ⊥

FaultFits-OnlyReads : (least : ℕ) (f : Fault) → OnlyReads f → FaultFits least f
FaultFits-OnlyReads least read_past_end h = tt
FaultFits-OnlyReads least write_past_end h = absurd h
FaultFits-OnlyReads least overlapping_copy h = absurd h

module _ {H : Type 0} (least : ℕ) where
  after_process_safe :
      (continue : List ℕ → Server H → Result H Bool) (buf : List ℕ) (r : Result H ℤ)
      → least ≤ length buf
      → Leaves 0 buf r
      → ((rest : List ℕ) (t : Server H) → length rest < 467 → EndsSafely least (continue rest t))
      → EndsSafely least (after_process continue buf r)
  unfolding after_process
  after_process_safe continue buf (returned (pos zero) s) long f go = refl
  after_process_safe continue buf (returned (pos (suc n)) s) long f go =
      let moved : EndsSafely least (continue (drop (suc n) buf) s) =
        go (drop (suc n) buf) s (omega (arith, length-drop (suc n) buf)) in
      elim (Bool-cases (ltb (suc n) (length buf - suc n))) [
        | inl e ↦ rw e (omega (arith, ltb→lt (suc n) (length buf - suc n) e))
        | inr e ↦ rw e moved
      ]
  after_process_safe continue buf (returned (negsuc n) s) long f go = refl
  after_process_safe continue buf (fault e) long f go = FaultFits-OnlyReads least e f
  after_process_safe continue buf out_of_fuel long f go = absurd f

  read_loop_safe :
      (buf : List ℕ) (rs : List Read) (s : Server H)
      → length buf < 467
      → AreReads least rs
      → EndsSafely least (read_loop buf rs s)
  unfolding read_loop
  read_loop_safe buf [] s room r = refl
  read_loop_safe buf (failed ∷ rs) s room r = read_loop_safe buf rs s room r
  read_loop_safe buf (bytes [] ∷ rs) s room r = refl
  read_loop_safe buf (bytes (b ∷ bs) ∷ rs) s room r =
      rw (ge→ltb 8192 (length buf + length (b ∷ bs)) (omega arith)) (
        after_process_safe _ (buf ++ b ∷ bs) (process_data_read s (buf ++ b ∷ bs))
          (omega (arith, length-append buf (b ∷ bs))) (process_data_read_bounds s (buf ++ b ∷ bs))
          λ rest t less. read_loop_safe rest rs t less r.2)

  -- On any device whose reads give at most the 4096 bytes asked for, and none less than `least`:
  -- `doReadMsg` never writes past the end of its buffer, and where `least` is 932 or more it never
  -- copies between parts of the buffer that overlap. It ends with the result false, by reading past
  -- the end of an array inside a message, or, for a smaller `least`, by such a copy.
  pub do_read_msg_safe :
      (s : Server H) (rs : List Read) → AreReads least rs → EndsSafely least (do_read_msg s rs)
  unfolding do_read_msg
  do_read_msg_safe s rs r = read_loop_safe [] rs s (omega arith) r
