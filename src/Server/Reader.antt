-- ===== src/Server/Reader.antt =====
-- `doReadMsg` of MemOpRcptServer.cpp: the loop over the reads of a device.
pub mod Buffer
pub mod Chunks
pub mod Overlap
use aleakd.Base.{
  ℕ, zero, suc, ◌+◌, ◌-◌, Bool, false, ℤ, pos, negsuc, List, [], ◌∷◌, ◌++◌, ltb, if◌then◌else◌,
  length, drop, arith,
}
use aleakd.Server.Handler.{Server}
use aleakd.Server.Process.{
  Result, returned, fault, out_of_fuel, write_past_end, overlapping_copy, process_data_read,
}

-- What one call of `QIODevice::read` gives: some bytes, or -1. A device is the list of its reads;
-- after the last one `read` gives 0, as at the end of the data.
pub data Read : Type 0 where
  bytes : List ℕ → Read
  failed : Read

-- The size of `pBuffer`, and the most that one call of `read` is asked for.
abbrev pub buffer_size : ℕ
buffer_size = 8192

abbrev pub read_size : ℕ
read_size = 4096

module _ {H : Type 0} where
  -- What follows the processing of `buf`: `memcpy` of the rest to the front, which is undefined where
  -- the rest is longer than what was processed, and the loop goes on; or "Error to process data" and
  -- `break`. `bRes` is never set.
  unfoldable pub after_process :
      (List ℕ → Server H → Result H Bool) → List ℕ → Result H ℤ → Result H Bool
  after_process continue buf (returned (pos (suc n)) s) =
      let moved = continue (drop (suc n) buf) s in
      if ltb (suc n) (length buf - suc n) then fault overlapping_copy else moved
  after_process continue buf (returned (pos zero) s) = returned false s
  after_process continue buf (returned (negsuc n) s) = returned false s
  after_process continue buf (fault f) = fault f
  after_process continue buf out_of_fuel = out_of_fuel

  -- The loop; `buf` is the first `iBufferReadSize` bytes of `pBuffer`. A read of -1 is not zero, so
  -- the loop reads again.
  unfoldable pub read_loop : List ℕ → List Read → Server H → Result H Bool
  read_loop buf [] s = returned false s
  read_loop buf (failed ∷ rs) s = read_loop buf rs s
  read_loop buf (bytes [] ∷ rs) s = returned false s
  read_loop buf (bytes (b ∷ bs) ∷ rs) s =
      if ltb buffer_size (length buf + length (b ∷ bs))
      then fault write_past_end
      else after_process (λ rest t. read_loop rest rs t) (buf ++ b ∷ bs)
          (process_data_read s (buf ++ b ∷ bs))

  -- `doReadMsg`
  unfoldable pub do_read_msg : Server H → List Read → Result H Bool
  do_read_msg s rs = read_loop [] rs s
