-- ===== src/Model/Usage/Peaks.antt =====
-- server/Model/MemoryUsage.cpp keeps the peak of each second, as long as the sizes fit an `int`.
use aleakd.Base.{
  ==→eq, ap, ◌∙◌, ℕ, ◌-◌, ◌%◌, ◌^◌, ◌≤◌, ◌<◌, ◌≡◌, refl, List, [], ◌∷◌, ◌==◌, ltb, if◌then◌else◌,
  arith, Bool-cases, inl, inr,
}
use aleakd.Model.Usage.{MemoryUsage, new_memory_usage, EntryList, value_or, insert, value, update}

-- The larger of two sizes.
abbrev pub larger : ℕ → ℕ → ℕ
larger a b = if ltb a b then b else a

value_or-insert :
    (d k j v : ℕ) (es : EntryList)
    → value_or d k (insert j v es) ≡ (if j == k then v else value_or d k es)
value_or-insert d k j v [] = refl
value_or-insert d k j v (e ∷ es) = ground (arith, value_or-insert d k j v es)

-- For a stored value that fits an `int`, an update with `size` at second `t` makes the value of that
-- second the larger of the two, and leaves every other second as it was.
pub value-update :
    (u : MemoryUsage) (t size k : ℕ)
    → value u t < 2 ^ 31
    → value (update u t size) k ≡ (if t == k then larger (value u t) size else value u k)
unfolding value update
value-update u t size k fits = ground (arith, value_or-insert 0 k t size u.list_size_by_timestamp)

-- The updates of a capture, in their order.
pub update_all : List (ℕ × ℕ) → MemoryUsage → MemoryUsage
update_all [] u = u
update_all ((t, size) ∷ us) u = update_all us (update u t size)

-- The largest of a value and the sizes reported for one second.
abbrev pub peak_at : ℕ → ℕ → List (ℕ × ℕ) → ℕ
peak_at k v [] = v
peak_at k v ((t, size) ∷ us) = peak_at k (if t == k then larger v size else v) us

abbrev pub AreInts : List (ℕ × ℕ) → Type 0
AreInts [] = Unit {0}
AreInts ((t, size) ∷ us) = (size < 2 ^ 31) × AreInts us

abbrev HoldsInts : MemoryUsage → Type 0
HoldsInts u = (k : ℕ) → value u k < 2 ^ 31

update-HoldsInts :
    (u : MemoryUsage) (t size : ℕ) → HoldsInts u → size < 2 ^ 31 → HoldsInts (update u t size)
update-HoldsInts u t size h small k = ground (arith, value-update u t size k (h t), h k, h t)

value-update_all_from :
    (us : List (ℕ × ℕ)) (u : MemoryUsage) (k : ℕ)
    → HoldsInts u
    → AreInts us
    → value (update_all us u) k ≡ peak_at k (value u k) us
unfolding update_all
value-update_all_from [] u k h w = refl
value-update_all_from ((t, size) ∷ us) u k h (small, w) =
    value-update_all_from us (update u t size) k (update-HoldsInts u t size h small) w
    ∙ ap (λ v. peak_at k v us) step
  where
    step : value (update u t size) k ≡ (if t == k then larger (value u k) size else value u k)
    step = elim (Bool-cases (t == k)) [
      | inl same ↦ rw same (value-update u t size k (h t) ∙ rw (same, ==→eq t k same) refl)
      | inr other ↦ rw other (value-update u t size k (h t) ∙ rw other refl)
    ]

-- From an empty record on, the value of each second is the largest of the sizes reported for it, and
-- 0 where there was none, as long as every size is below 2 ^ 31.
pub value-update_all :
    (us : List (ℕ × ℕ)) (k : ℕ)
    → AreInts us
    → value (update_all us new_memory_usage) k ≡ peak_at k 0 us
unfolding value
value-update_all us k w = value-update_all_from us new_memory_usage k (λ j. omega arith) w

-- Where the low 32 bits of the stored value are zero it counts as missing, and any size, a smaller
-- one too, takes its place.
pub value-update_wrapped :
    (u : MemoryUsage) (t size : ℕ) → value u t % 2 ^ 32 ≡ 0 → value (update u t size) t ≡ size
unfolding value update
value-update_wrapped u t size h =
    ground (arith, value_or-insert 0 t t size u.list_size_by_timestamp)

-- Where bit 31 of the stored value is set it reads as a negative `int`, and no size below 2 ^ 64 -
-- 2 ^ 31 is taken, a larger one neither.
pub update_lost :
    (u : MemoryUsage) (t size : ℕ)
    → 2 ^ 31 ≤ value u t % 2 ^ 32
    → size < 2 ^ 64 - 2 ^ 31
    → update u t size ≡ u
unfolding value update
update_lost u t size h small = ground arith
