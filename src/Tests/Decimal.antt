-- ===== src/Tests/Decimal.antt =====
-- A Qt that writes and reads decimal numbers, for the concrete runs.
use aleakd.Base.{
  ℕ, zero, suc, ◌+◌, ◌-◌, ◌*◌, ◌/◌, ◌%◌, ◌^◌, ◌≤◌, ◌<◌, ◌≡◌, refl, ap, ◌∙◌, Bool, true, false, List,
  [], ◌∷◌, ◌++◌, append-nil, ◌==◌, ltb, ne→==, if◌then◌else◌, length, Bool-cases, ltb→lt, lt→ltb,
  ltb→ge, inl, inr, arith,
}
use aleakd.View.Qt.{Qt, QtLaws, AreDigits, comma, time_format}

digit_of : ℕ → ℕ
digit_of d = if ltb d 10 then 48 + d else 87 + d

-- The digits of a number in a base.
digits : ℕ → ℕ → ℕ → List ℕ
digits base zero n = []
digits base (suc f) n =
    let front = digits base f (n / base) in
    if ltb n base then digit_of n ∷ [] else front ++ digit_of (n % base) ∷ []

decimal : ℕ → List ℕ
unfolding digits
decimal n = digits 10 (suc n) n

hexadecimal : ℕ → List ℕ
unfolding digits
hexadecimal n = digits 16 (suc n) n

signed : ℕ → List ℕ
unfolding decimal
signed n = if ltb n (2 ^ 31) then decimal n else b'-' ∷ decimal (2 ^ 32 - n)

zeros : ℕ → List ℕ → List ℕ
zeros zero cs = cs
zeros (suc n) cs = 48 ∷ zeros n cs

six_digits : ℕ → List ℕ
unfolding decimal zeros
six_digits n = zeros (6 - length (decimal n)) (decimal n)

read_from : ℕ → List ℕ → ℕ
read_from acc [] = acc
read_from acc (c ∷ cs) = read_from (acc * 10 + (c - 48)) cs

read : List ℕ → ℕ
unfolding read_from
read cs = read_from 0 cs

-- The markers of a format, behind a percent sign or not.
fill : Bool → List ℕ → List ℕ → List ℕ → List ℕ
fill false [] a b = []
fill true [] a b = b'%' ∷ []
fill false (c ∷ cs) a b =
    let behind = fill true cs a b in
    let plain = c ∷ fill false cs a b in if c == b'%' then behind else plain
fill true (c ∷ cs) a b =
    let rest = fill false cs a b in
    if c == b'0' then a ++ rest else if c == b'1' then b ++ rest else b'%' ∷ c ∷ rest

onto_first : ℕ → List (List ℕ) → List (List ℕ)
onto_first c [] = (c ∷ []) ∷ []
onto_first c (t ∷ ts) = (c ∷ t) ∷ ts

split_at_commas : List ℕ → List (List ℕ)
unfolding onto_first
split_at_commas [] = [] ∷ []
split_at_commas (c ∷ cs) =
    let rest = split_at_commas cs in if c == comma then [] ∷ rest else onto_first c rest

pub decimal_qt : Qt
unfolding decimal hexadecimal signed six_digits read fill split_at_commas
decimal_qt = record {
  number = decimal;
  number_hex = hexadecimal;
  number_int = signed;
  padded = six_digits;
  arg1 = λ format a. fill false format a [];
  arg2 = fill false;
  split = split_at_commas;
  to_ulong = read;
}

read_from-append :
    (acc : ℕ) (cs : List ℕ) (c : ℕ)
    → read_from acc (cs ++ c ∷ []) ≡ read_from acc cs * 10 + (c - 48)
unfolding read_from
read_from-append acc [] c = refl
read_from-append acc (b ∷ cs) c = read_from-append (acc * 10 + (b - 48)) cs c

digit_of-value : (d : ℕ) → d < 10 → digit_of d - 48 ≡ d
unfolding digit_of
digit_of-value d h = ground arith

digits-read : (f n : ℕ) → n < f → read_from 0 (digits 10 f n) ≡ n
unfolding digits read_from
digits-read zero n h = absurd (omega arith)
digits-read (suc f) n h = elim (Bool-cases (ltb n 10)) [
  | inl e ↦ rw e (omega (arith, digit_of-value n (ltb→lt n 10 e)))
  | inr e ↦ rw e (
      read_from-append 0 (digits 10 f (n / 10)) (digit_of (n % 10))
      ∙ omega (
        arith,
        digits-read f (n / 10) (omega (arith, ltb→ge n 10 e)),
        digit_of-value (n % 10) (omega arith),
      ))
]

AreDigits-append : (a b : List ℕ) → AreDigits a → AreDigits b → AreDigits (a ++ b)
AreDigits-append [] b h k = k
AreDigits-append (c ∷ a) b h k = (h.0, h.1, AreDigits-append a b h.2 k)

digit_of-bounds : (d : ℕ) → d < 10 → (48 ≤ digit_of d) × (digit_of d ≤ 57)
unfolding digit_of
digit_of-bounds d h = ground arith

digits-AreDigits : (f n : ℕ) → AreDigits (digits 10 f n)
unfolding digits
digits-AreDigits zero n = tt
digits-AreDigits (suc f) n = elim (Bool-cases (ltb n 10)) [
  | inl e ↦ rw e (let (a, b) = digit_of-bounds n (ltb→lt n 10 e) in (a, b, tt))
  | inr e ↦ rw e (
      AreDigits-append (digits 10 f (n / 10)) (digit_of (n % 10) ∷ []) (digits-AreDigits f (n / 10))
        (let (a, b) = digit_of-bounds (n % 10) (omega arith) in (a, b, tt)))
]

zeros-AreDigits : (n : ℕ) (cs : List ℕ) → AreDigits cs → AreDigits (zeros n cs)
unfolding zeros
zeros-AreDigits zero cs h = h
zeros-AreDigits (suc n) cs h = (omega arith, omega arith, zeros-AreDigits n cs h)

zeros-read : (n : ℕ) (cs : List ℕ) → read_from 0 (zeros n cs) ≡ read_from 0 cs
unfolding zeros read_from
zeros-read zero cs = refl
zeros-read (suc n) cs = zeros-read n cs

split_one : (b : List ℕ) → AreDigits b → split_at_commas b ≡ b ∷ []
unfolding split_at_commas onto_first
split_one [] h = refl
split_one (c ∷ b) h = rw (ne→== c 44 (λ e. omega arith)) (ap (onto_first c) (split_one b h.2))

split_two :
    (a b : List ℕ) → AreDigits a → AreDigits b → split_at_commas (a ++ comma ∷ b) ≡ a ∷ b ∷ []
unfolding split_at_commas onto_first
split_two [] b h k = ap (◌∷◌ []) (split_one b k)
split_two (c ∷ a) b h k =
    rw (ne→== c 44 (λ e. omega arith)) (ap (onto_first c) (split_two a b h.2 k))

fill_time : (a b : List ℕ) → fill false time_format a b ≡ a ++ comma ∷ b
unfolding fill
fill_time a b = ap (λ c. a ++ comma ∷ c) (append-nil b)

signed_small : (n : ℕ) → n < 2 ^ 31 → signed n ≡ decimal n
unfolding signed
signed_small n h = rw (lt→ltb n (2 ^ 31) h) refl

pub decimal_qt-QtLaws : QtLaws decimal_qt
unfolding decimal_qt
decimal_qt-QtLaws = record {
  number_int-number = λ n h. signed_small n h;
  number-AreDigits = λ n. digits-AreDigits (suc n) n;
  padded-AreDigits =
      λ n. zeros-AreDigits (6 - length (decimal n)) (decimal n) (digits-AreDigits (suc n) n);
  to_ulong-number = λ n h. digits-read (suc n) n (omega arith);
  to_ulong-padded =
      λ n h. zeros-read (6 - length (decimal n)) (decimal n) ∙ digits-read (suc n) n (omega arith);
  arg2-time = λ a b h k. fill_time a b;
  split-comma = λ a b h k. split_two a b h k;
}
