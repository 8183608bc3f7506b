-- ===== src/View/Qt.antt =====
-- The texts of the Qt library that the server uses, as an interface: the operations, and what the code
-- relies on. A `QString` is the list of its character codes.
pub use aleakd.Base.{text}
use aleakd.Base.{text, ℕ, ◌≤◌, ◌<◌, ◌^◌, ◌≡◌, List, [], ◌∷◌, ◌++◌}

abbrev pub comma : ℕ
comma = b','

-- The format of a time.
abbrev pub time_format : List ℕ
time_format = text "%0,%1"

pub record Qt : Type 0 where
  -- `QString::number(n)` and `QString::number(n, 16)`
  pub number : ℕ → List ℕ
  pub number_hex : ℕ → List ℕ
  -- `QString::number(n)` of an `int` pattern
  pub number_int : ℕ → List ℕ
  -- What `arg(n, 6, 10, QChar('0'))` puts into a format.
  pub padded : ℕ → List ℕ
  -- `QString(format).arg(a)`
  pub arg1 : List ℕ → List ℕ → List ℕ
  -- `QString(format).arg(a).arg(b)`
  pub arg2 : List ℕ → List ℕ → List ℕ → List ℕ
  -- `split(",")`
  pub split : List ℕ → List (List ℕ)
  -- `toULong`, and `toULongLong`, which is the same on 64-bit machines.
  pub to_ulong : List ℕ → ℕ

-- Only decimal digits.
abbrev pub AreDigits : List ℕ → Type 0
AreDigits [] = Unit {0}
AreDigits (c ∷ cs) = (48 ≤ c) × (c ≤ 57) × AreDigits cs

-- What the documentation of `QString` says of them.
pub record QtLaws (q : Qt) : Type 0 where
  pub number_int-number : (n : ℕ) → n < 2 ^ 31 → q.number_int n ≡ q.number n
  pub number-AreDigits : (n : ℕ) → AreDigits (q.number n)
  pub padded-AreDigits : (n : ℕ) → AreDigits (q.padded n)
  pub to_ulong-number : (n : ℕ) → n < 2 ^ 64 → q.to_ulong (q.number n) ≡ n
  pub to_ulong-padded : (n : ℕ) → n < 2 ^ 64 → q.to_ulong (q.padded n) ≡ n
  pub arg2-time :
      (a b : List ℕ) → AreDigits a → AreDigits b → q.arg2 time_format a b ≡ a ++ comma ∷ b
  pub split-comma :
      (a b : List ℕ) → AreDigits a → AreDigits b → q.split (a ++ comma ∷ b) ≡ a ∷ b ∷ []
