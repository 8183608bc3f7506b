-- ===== src/Shared/Wire.antt =====
-- The packed fields of shared/server-msg.h in memory, as the client writes them and the server
-- copies them out with `memcpy`. The byte order is that of the host, taken little-endian, and
-- the same on both ends.
use native.Mathlib.Nat.{pow-suc}
use aleakd.Base.{
  ℕ, zero, suc, ◌+◌, ◌*◌, ◌/◌, ◌%◌, ◌^◌, ◌<◌, ◌≡◌, refl, ap, ◌∙◌, sym, List, [], ◌∷◌, ◌++◌, length,
  take, drop, take-append_exact, drop-append_exact, take-append, length-append, ◌≤◌, append_assoc,
  arith,
}

-- An unsigned field of `k` bytes in memory.
pub le_bytes : ℕ → ℕ → List ℕ
le_bytes zero n = []
le_bytes (suc k) n = (n % 256) ∷ le_bytes k (n / 256)

-- The number that the bytes of a field stand for.
pub le_value : List ℕ → ℕ
le_value [] = 0
le_value (b ∷ bs) = b + 256 * le_value bs

-- The field of `k` bytes at the front of a buffer.
unfoldable pub read_le : ℕ → List ℕ → ℕ
read_le k bs = le_value (take k bs)

-- A field that lies in the first part of a buffer is read from that part.
pub read_le-append : (k : ℕ) (p q : List ℕ) → k ≤ length p → read_le k (p ++ q) ≡ read_le k p
unfolding read_le
read_le-append k p q le = rw (take-append k p q le) refl

pub length-le_bytes : (k n : ℕ) → length (le_bytes k n) ≡ k
unfolding le_bytes
length-le_bytes zero n = refl
length-le_bytes (suc k) n = ap suc (length-le_bytes k (n / 256))

le_value-le_bytes : (k n : ℕ) → n < 256 ^ k → le_value (le_bytes k n) ≡ n
unfolding le_bytes le_value
le_value-le_bytes zero n h = omega arith
le_value-le_bytes (suc k) n h =
    omega (arith, le_value-le_bytes k (n / 256) (omega (arith, pow-suc 256 k)))

-- A field read back is the field written, and reading goes on behind it.
pub read_le-le_bytes :
    (k n : ℕ) (rest : List ℕ) → n < 256 ^ k → read_le k (le_bytes k n ++ rest) ≡ n
unfolding read_le
read_le-le_bytes k n rest h =
    ap le_value (take-append_exact k (le_bytes k n) rest (sym (length-le_bytes k n)))
    ∙ le_value-le_bytes k n h

pub drop-le_bytes : (k n : ℕ) (rest : List ℕ) → drop k (le_bytes k n ++ rest) ≡ rest
drop-le_bytes k n rest = drop-append_exact k (le_bytes k n) rest (sym (length-le_bytes k n))

-- An array of `uint64_t` in memory.
pub le_array : List ℕ → List ℕ
le_array [] = []
le_array (a ∷ as') = le_bytes 8 a ++ le_array as'

unfoldable pub read_array : ℕ → List ℕ → List ℕ
read_array zero bs = []
read_array (suc n) bs = read_le 8 bs ∷ read_array n (drop 8 bs)

-- Every element fits its field.
abbrev pub AllBelow : ℕ → List ℕ → Type 0
AllBelow m [] = Unit {0}
AllBelow m (a ∷ as') = (a < m) × AllBelow m as'

pub length-le_array : (as' : List ℕ) → length (le_array as') ≡ 8 * length as'
unfolding le_array
length-le_array [] = refl
length-le_array (a ∷ as') =
    omega
      (arith, length-append (le_bytes 8 a) (le_array as'), length-le_bytes 8 a, length-le_array as')

pub read_array-le_array :
    (n : ℕ) (as' rest : List ℕ)
    → length as' ≡ n
    → AllBelow (2 ^ 64) as'
    → read_array n (le_array as' ++ rest) ≡ as'
unfolding read_array le_array
read_array-le_array zero [] rest e h = refl
read_array-le_array zero (a ∷ as') rest e h = absurd (omega arith)
read_array-le_array (suc n) [] rest e h = absurd (omega arith)
read_array-le_array (suc n) (a ∷ as') rest e h =
    rw (append_assoc (le_bytes 8 a) (le_array as') rest) (
      rw (read_le-le_bytes 8 a (le_array as' ++ rest) h.0) (
        rw (drop-le_bytes 8 a (le_array as' ++ rest))
          (ap (◌∷◌ a) (read_array-le_array n as' rest (omega arith) h.1))))
