-- ===== src/Model/Usage.antt =====
-- server/Model/MemoryUsage.cpp: the memory in use for each second of the capture. The `QHash` is an
-- association list with one entry for a key.
pub mod Peaks
use aleakd.Base.{
  ℕ, ◌+◌, ◌-◌, ◌%◌, ◌^◌, Bool, true, false, List, [], ◌∷◌, ◌==◌, ltb, if◌then◌else◌, length,
}

abbrev pub EntryList : Type 0
EntryList = List (ℕ × ℕ)

-- `QHash::value` with its default, `QHash::contains` and `QHash::insert`.
abbrev pub value_or : ℕ → ℕ → EntryList → ℕ
value_or d k [] = d
value_or d k ((j, v) ∷ es) = if j == k then v else value_or d k es

abbrev pub has_key : ℕ → EntryList → Bool
has_key k [] = false
has_key k ((j, v) ∷ es) = if j == k then true else has_key k es

abbrev pub insert : ℕ → ℕ → EntryList → EntryList
insert k v [] = (k, v) ∷ []
insert k v ((j, w) ∷ es) = if j == k then (k, v) ∷ es else (j, w) ∷ insert k v es

pub record MemoryUsage : Type 0 where
  pub first_time : ℕ
  pub last_time : ℕ
  pub list_size_by_timestamp : EntryList

-- `MemoryUsage::MemoryUsage()`, and what `MemoryUsage::clear` leaves.
abbrev pub new_memory_usage : MemoryUsage
new_memory_usage = record { first_time = 0; last_time = 0; list_size_by_timestamp = [] }

-- `MemoryUsage::clear`
unfoldable pub clear : MemoryUsage → MemoryUsage
clear u = record u { first_time = 0; last_time = 0; list_size_by_timestamp = [] }

-- `MemoryUsage::contains`
unfoldable pub contains : MemoryUsage → ℕ → Bool
contains u t = has_key t u.list_size_by_timestamp

-- `MemoryUsage::count`
unfoldable pub count : MemoryUsage → ℕ
count u = length u.list_size_by_timestamp

-- `MemoryUsage::value`
unfoldable pub value : MemoryUsage → ℕ → ℕ
value u t = value_or 0 t u.list_size_by_timestamp

-- A `quint64` stored in an `int`, as its 32-bit pattern.
abbrev pub to_int : ℕ → ℕ
to_int v = v % 2 ^ 32

-- The `int` converted back to `quint64`: the sign is extended.
abbrev pub from_int : ℕ → ℕ
from_int w = if ltb w (2 ^ 31) then w else w + (2 ^ 64 - 2 ^ 32)

-- `MemoryUsage::update`
unfoldable pub update : MemoryUsage → ℕ → ℕ → MemoryUsage
update u t size =
    let current = to_int (value_or 0 t u.list_size_by_timestamp) in
    if current == 0
    then record u {
      first_time = if u.first_time == 0 then t else u.first_time;
      list_size_by_timestamp = insert t size u.list_size_by_timestamp;
      last_time = t;
    }
    else if ltb (from_int current) size
    then record u { list_size_by_timestamp = insert t size u.list_size_by_timestamp; last_time = t }
    else u
