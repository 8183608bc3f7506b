-- ===== src/Shared/Hex.antt =====
-- `ALeakD_toHexString` of shared/common.c.
use mathlib.Core.Option
use aleakd.Base.{
  ◌==◌, ◌||◌, false, Option, none, some, ℕ, ◌+◌, ◌*◌, ◌-◌, ◌/◌, ◌%◌, ◌<◌, ◌≡◌, refl, ap, List, [],
  ◌∷◌, ◌++◌, ltb, if◌then◌else◌, arith,
}
use aleakd.Shared.Wire.{AllBelow}

-- `g_szValBase16` at a number below 16, as a character code
unfoldable pub digit : ℕ → ℕ
digit n = if ltb n 10 then 48 + n else 55 + n

-- The loop of `ALeakD_toHexString`
unfoldable pub hex_digits : List ℕ → List ℕ
unfolding digit
hex_digits [] = []
hex_digits (b ∷ bs) = digit (b / 16 % 16) ∷ digit (b % 16) ∷ hex_digits bs

-- `ALeakD_toHexString`: what it writes to the string, with the closing 0. For no byte it writes
-- nothing at all.
unfoldable pub to_hex_string : List ℕ → List ℕ
unfolding hex_digits
to_hex_string [] = []
to_hex_string (b ∷ bs) = hex_digits (b ∷ bs) ++ 0 ∷ []

-- The number of a digit.
pub digit_value : ℕ → ℕ
digit_value c = if ltb c 65 then c - 48 else c - 55

-- The bytes that a string of digits stands for: the string must end with its first 0, behind a whole
-- number of bytes.
pub from_hex : List ℕ → Option (List ℕ)
from_hex [] = none
from_hex (c ∷ []) = if c == 0 then some [] else none
from_hex (c ∷ d ∷ cs) =
    let rest = from_hex cs in
    if (c == 0) || (d == 0)
    then none
    else Option.map (λ bs. (digit_value c * 16 + digit_value d) ∷ bs) rest

digit_value-digit : (n : ℕ) → n < 16 → digit_value (digit n) ≡ n
unfolding digit digit_value
digit_value-digit n h = ground arith

digit-not_end : (n : ℕ) → (digit n == 0) ≡ false
unfolding digit
digit-not_end n = ground arith

from_hex-hex_digits : (bs : List ℕ) → AllBelow 256 bs → from_hex (hex_digits bs ++ 0 ∷ []) ≡ some bs
unfolding from_hex hex_digits
from_hex-hex_digits [] h = refl
from_hex-hex_digits (b ∷ bs) (small, h) =
    rw
      (
        digit-not_end (b / 16 % 16),
        digit-not_end (b % 16),
        digit_value-digit (b / 16 % 16) (omega arith),
        digit_value-digit (b % 16) (omega arith),
        from_hex-hex_digits bs h,
      )
      (ap (λ n. some (n ∷ bs)) (omega arith))

-- The string of one or more bytes, read back, gives the bytes: two digits for each, the higher one
-- first, and one closing 0 behind them.
pub from_hex-to_hex_string :
    (b : ℕ) (bs : List ℕ)
    → AllBelow 256 (b ∷ bs)
    → from_hex (to_hex_string (b ∷ bs)) ≡ some (b ∷ bs)
unfolding to_hex_string
from_hex-to_hex_string b bs h = from_hex-hex_digits (b ∷ bs) h
