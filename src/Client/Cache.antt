-- ===== src/Client/Cache.antt =====
-- lib/backtrace.c: the addresses whose symbols were sent already.
use aleakd.Base.{
  ℕ, zero, suc, ◌+◌, ◌%◌, ◌≤◌, ◌<◌, ◌≡◌, refl, sym, ap, ◌∙◌, Bool, true, false, ◌||◌, ◌⊎◌, inl, inr,
  List, [], ◌∷◌, length, ltb, ◌==◌, eq→==, if◌then◌else◌, set, length-set, add32, replicate, arith,
}

-- An entry of `g_listAddr` and of `g_listAddrCount`. The count is an int, kept as its bits.
pub record Slot : Type 0 where
  pub addr : ℕ
  pub count : ℕ

-- `<` on the bits of two ints
abbrev pub int_lt : ℕ → ℕ → Bool
int_lt a b = ltb ((a + 2147483648) % 4294967296) ((b + 2147483648) % 4294967296)

-- `INT32_MAX`
abbrev pub int32_max : ℕ
int32_max = 2147483647

-- How the loop of `backtrace_check_addr` ends: at the address, or behind the last entry, with `iPosMin`.
pub data Found : Type 0 where
  at_address : ℕ → Found
  at_end : ℕ → Found

-- The loop of `backtrace_check_addr` from index `i` on, with `iPosMin` and `iValMin`.
unfoldable pub search_addr : ℕ → ℕ → ℕ → ℕ → List Slot → Found
search_addr addr i pos_min val_min [] = at_end pos_min
search_addr addr i pos_min val_min (s ∷ ss) =
    let lower = int_lt s.count val_min in
    let rest =
      search_addr addr (suc i) (if lower then i else pos_min) (if lower then s.count else val_min)
        ss in
    if s.addr == addr then at_address i else rest

-- `g_listAddrCount[i] = g_listAddrCount[i] + 1`
unfoldable pub increment : List Slot → ℕ → List Slot
increment [] i = []
increment (s ∷ ss) zero = record s { count = add32 s.count 1 } ∷ ss
increment (s ∷ ss) (suc i) = s ∷ increment ss i

-- What follows the loop.
unfoldable pub finish : ℕ → List Slot → Found → Bool × List Slot
unfolding increment
finish addr cache (at_address i) = (true, increment cache i)
finish addr cache (at_end pos) = (false, set cache pos (record { addr = addr; count = 1 }))

-- `backtrace_check_addr`
unfoldable pub check_addr : ℕ → List Slot → Bool × List Slot
unfolding search_addr finish
check_addr addr cache = finish addr cache (search_addr addr 0 0 int32_max cache)

-- `backtrace_init` on the two tables
unfoldable pub init : ℕ → List Slot
init size = replicate size (record { addr = 0; count = 0 })

-- Whether an address is in the table.
pub has_addr : ℕ → List Slot → Bool
has_addr addr [] = false
has_addr addr (s ∷ ss) = (s.addr == addr) || has_addr addr ss

-- How the loop ends, by what it looks for: with the index of an entry that has the address, or,
-- if there is none, with the index it started with or that of an entry.
IsFound : ℕ → ℕ → ℕ → List Slot → Found → Type 0
IsFound addr i pos ss (at_address j) = has_addr addr ss ≡ true
IsFound addr i pos ss (at_end p) =
    (has_addr addr ss ≡ false) × ((p ≡ pos) ⊎ ((i ≤ p) × (p < i + length ss)))

found_step :
    (addr i pos pos' : ℕ) (s : Slot) (ss : List Slot) (f : Found) (b : Bool)
    → (s.addr == addr) ≡ b
    → (pos' ≡ i) ⊎ (pos' ≡ pos)
    → IsFound addr (suc i) pos' ss f
    → IsFound addr i pos (s ∷ ss) (if b then at_address i else f)
unfolding IsFound has_addr
found_step addr i pos pos' s ss f true e from p = ap (λ b. b || has_addr addr ss) e
found_step addr i pos pos' s ss (at_address j) false e from p =
    ap (λ b. b || has_addr addr ss) e ∙ p
found_step addr i pos pos' s ss (at_end j) false e (inl here) (absent, inl at) =
    (ap (λ b. b || has_addr addr ss) e ∙ absent, inr (omega arith, omega arith))
found_step addr i pos pos' s ss (at_end j) false e (inr same) (absent, inl at) =
    (ap (λ b. b || has_addr addr ss) e ∙ absent, inl (at ∙ same))
found_step addr i pos pos' s ss (at_end j) false e from (absent, inr (low, high)) =
    (ap (λ b. b || has_addr addr ss) e ∙ absent, inr (omega arith, omega arith))

either : (b : Bool) (i pos : ℕ) → ((if b then i else pos) ≡ i) ⊎ ((if b then i else pos) ≡ pos)
either true i pos = inl refl
either false i pos = inr refl

search_addr-IsFound :
    (addr i pos val : ℕ) (ss : List Slot) → IsFound addr i pos ss (search_addr addr i pos val ss)
unfolding search_addr has_addr IsFound
search_addr-IsFound addr i pos val [] = (refl, inl refl)
search_addr-IsFound addr i pos val (s ∷ ss) =
    let lower = int_lt s.count val in
    found_step addr i pos (if lower then i else pos) s ss _ (s.addr == addr) refl
      (either lower i pos)
      (search_addr-IsFound addr (suc i) (if lower then i else pos) (if lower then s.count else val)
        ss)

has_addr-increment :
    (addr : ℕ) (ss : List Slot) (i : ℕ) → has_addr addr (increment ss i) ≡ has_addr addr ss
unfolding has_addr increment
has_addr-increment addr [] i = refl
has_addr-increment addr (s ∷ ss) zero = refl
has_addr-increment addr (s ∷ ss) (suc i) =
    ap (λ b. (s.addr == addr) || b) (has_addr-increment addr ss i)

length-increment : (ss : List Slot) (i : ℕ) → length (increment ss i) ≡ length ss
unfolding increment
length-increment [] i = refl
length-increment (s ∷ ss) zero = refl
length-increment (s ∷ ss) (suc i) = ap suc (length-increment ss i)

or_true : (b : Bool) → (b || true) ≡ true
or_true true = refl
or_true false = refl

has_addr-set :
    (addr n : ℕ) (ss : List Slot) (i : ℕ)
    → i < length ss
    → has_addr addr (set ss i (record { addr = addr; count = n })) ≡ true
unfolding has_addr
has_addr-set addr n [] i h = absurd (omega arith)
has_addr-set addr n (s ∷ ss) zero h = ap (λ b. b || has_addr addr ss) (eq→== addr addr refl)
has_addr-set addr n (s ∷ ss) (suc i) h =
    ap (λ b. (s.addr == addr) || b) (has_addr-set addr n ss i (omega arith))
    ∙ or_true (s.addr == addr)

-- What the result of the function says, and what it leaves.
abbrev pub Remembers : ℕ → List Slot → Bool × List Slot → Type 0
Remembers addr ss (known, ss') =
    (known ≡ has_addr addr ss) × (has_addr addr ss' ≡ true) × (length ss' ≡ length ss)

finish-Remembers :
    (addr : ℕ) (ss : List Slot) (f : Found)
    → 0 < length ss
    → IsFound addr 0 0 ss f
    → Remembers addr ss (finish addr ss f)
unfolding finish IsFound
finish-Remembers addr ss (at_address i) some_slot p =
    (sym p, has_addr-increment addr ss i ∙ p, length-increment ss i)
finish-Remembers addr ss (at_end i) some_slot (absent, inl at) =
    (sym absent, has_addr-set addr 1 ss i (omega arith), length-set ss i _)
finish-Remembers addr ss (at_end i) some_slot (absent, inr (low, high)) =
    (sym absent, has_addr-set addr 1 ss i (omega arith), length-set ss i _)

-- On a table with a place, `backtrace_check_addr` gives 1 exactly when the address is in the table,
-- the address is in the table it leaves, and the table keeps its size.
pub check_addr-Remembers :
    (addr : ℕ) (cache : List Slot) → 0 < length cache → Remembers addr cache (check_addr addr cache)
unfolding check_addr
check_addr-Remembers addr cache some_slot =
    finish-Remembers addr cache (search_addr addr 0 0 int32_max cache) some_slot
      (search_addr-IsFound addr 0 0 int32_max cache)

-- On a table with a place, an address that was asked for is known the next time.
pub check_addr-known :
    (addr : ℕ) (cache : List Slot)
    → 0 < length cache
    → (check_addr addr (check_addr addr cache).1).0 ≡ true
check_addr-known addr cache some_slot =
    let (_, has, same) = check_addr-Remembers addr cache some_slot in
    (check_addr-Remembers addr (check_addr addr cache).1 (omega arith)).0 ∙ has
