-- ===== src/Global.antt =====
-- server/Global/Utils.cpp: numbers for display.
use aleakd.Base.{
  zero, ◌≤◌, ◌<◌, ◌++◌, arith, ℕ, suc, ◌-◌, ◌%◌, ◌≡◌, ◌≢◌, refl, ap, Bool, true, false, not, ◌&&◌,
  List, [], ◌∷◌, ◌==◌, leb, if◌then◌else◌, length,
}

-- A character code of a space.
abbrev pub space : ℕ
space = 32

-- The test before a character: no space at the front, and then one before every third character behind
-- the first group. In the source `i - iPad` is negative in the first group, where its remainder is not 0.
unfoldable pub is_group_start : ℕ → ℕ → Bool
is_group_start pad i = not (i == 0) && (leb pad i && ((i - pad) % 3 == 0))

-- The loop of `getBeautifulNumberString` from index `i` on.
unfoldable pub group_digits : ℕ → ℕ → List ℕ → List ℕ
unfolding is_group_start
group_digits pad i [] = []
group_digits pad i (c ∷ cs) =
    let rest = c ∷ group_digits pad (suc i) cs in
    if is_group_start pad i then space ∷ rest else rest

-- `Utils::getBeautifulNumberString`
unfoldable pub get_beautiful_number_string : List ℕ → List ℕ
unfolding group_digits
get_beautiful_number_string cs = group_digits (length cs % 3) 0 cs

-- Groups, one behind the other, without and with a space in front of each.
unfoldable pub joined : List (List ℕ) → List ℕ
joined [] = []
joined (g ∷ gs) = g ++ joined gs

unfoldable pub spaced : List (List ℕ) → List ℕ
spaced [] = []
spaced (g ∷ gs) = space ∷ g ++ spaced gs

abbrev pub AreThrees : List (List ℕ) → Type 0
AreThrees [] = Unit {0}
AreThrees (g ∷ gs) = (length g ≡ 3) × AreThrees gs

-- The string is the characters of the number in groups with a space between them: a first group of one
-- to three characters, where there is any, and behind it groups of three.
pub record IsGrouped (cs out : List ℕ) : Type 0 where
  pub first : List ℕ
  pub groups : List (List ℕ)
  pub parts : first ++ joined groups ≡ cs
  pub shown : out ≡ first ++ spaced groups
  pub threes : AreThrees groups
  pub at_most : length first ≤ 3
  pub at_least : 0 < length cs → 0 < length first

threes_of : List ℕ → List (List ℕ)
threes_of (a ∷ b ∷ c ∷ cs) = (a ∷ b ∷ c ∷ []) ∷ threes_of cs
threes_of _ = []

starts : (pad i : ℕ) → i ≢ 0 → pad ≤ i → (i - pad) % 3 ≡ 0 → is_group_start pad i ≡ true
unfolding is_group_start
starts pad i ne le e = ground arith

no_start : (pad i : ℕ) → pad ≤ i → (i - pad) % 3 ≢ 0 → is_group_start pad i ≡ false
unfolding is_group_start
no_start pad i le e = ground arith

-- From the start of a group on.
group_digits-threes :
    (pad i : ℕ) (cs : List ℕ)
    → i ≢ 0
    → pad ≤ i
    → (i - pad) % 3 ≡ 0
    → length cs % 3 ≡ 0
    → (group_digits pad i cs ≡ spaced (threes_of cs))
      × (joined (threes_of cs) ≡ cs)
      × AreThrees (threes_of cs)
unfolding group_digits threes_of spaced joined
group_digits-threes pad i [] ne le e l = (refl, refl, tt)
group_digits-threes pad i (a ∷ []) ne le e l = absurd (omega arith)
group_digits-threes pad i (a ∷ b ∷ []) ne le e l = absurd (omega arith)
group_digits-threes pad i (a ∷ b ∷ c ∷ cs) ne le e l =
    let (shown, parts, threes) =
      group_digits-threes pad (suc (suc (suc i))) cs (λ z. omega arith) (omega arith) (omega arith)
        (omega arith) in
    (
      rw
          (
            starts pad i ne le e,
            no_start pad (suc i) (omega arith) (λ z. omega arith),
            no_start pad (suc (suc i)) (omega arith) (λ z. omega arith),
            shown,
          )
          refl,
      ap (λ ds. a ∷ b ∷ c ∷ ds) parts,
      (omega arith, threes),
    )

group_digits-IsGrouped :
    (pad : ℕ) (cs : List ℕ) → length cs % 3 ≡ pad → IsGrouped cs (group_digits pad 0 cs)
unfolding group_digits joined spaced
group_digits-IsGrouped pad [] e = record {
  first = [];
  groups = [];
  parts = refl;
  shown = refl;
  threes = tt;
  at_most = omega arith;
  at_least = λ h. h;
}
group_digits-IsGrouped zero (a ∷ []) e = absurd (omega arith)
group_digits-IsGrouped zero (a ∷ b ∷ []) e = absurd (omega arith)
group_digits-IsGrouped zero (a ∷ b ∷ c ∷ cs) e =
    let (shown, parts, threes) =
      group_digits-threes 0 3 cs (λ z. omega arith) (omega arith) (omega arith) (omega arith) in
    record {
      first = a ∷ b ∷ c ∷ [];
      groups = threes_of cs;
      parts = ap (λ ds. a ∷ b ∷ c ∷ ds) parts;
      shown = ap (λ ds. a ∷ b ∷ c ∷ ds) shown;
      threes = threes;
      at_most = omega arith;
      at_least = λ h. omega arith;
    }
group_digits-IsGrouped (suc zero) (a ∷ cs) e =
    let (shown, parts, threes) =
      group_digits-threes 1 1 cs (λ z. omega arith) (omega arith) (omega arith) (omega arith) in
    record {
      first = a ∷ [];
      groups = threes_of cs;
      parts = ap (λ ds. a ∷ ds) parts;
      shown = ap (λ ds. a ∷ ds) shown;
      threes = threes;
      at_most = omega arith;
      at_least = λ h. omega arith;
    }
group_digits-IsGrouped (suc (suc zero)) (a ∷ []) e = absurd (omega arith)
group_digits-IsGrouped (suc (suc zero)) (a ∷ b ∷ cs) e =
    let (shown, parts, threes) =
      group_digits-threes 2 2 cs (λ z. omega arith) (omega arith) (omega arith) (omega arith) in
    record {
      first = a ∷ b ∷ [];
      groups = threes_of cs;
      parts = ap (λ ds. a ∷ b ∷ ds) parts;
      shown = ap (λ ds. a ∷ b ∷ ds) shown;
      threes = threes;
      at_most = omega arith;
      at_least = λ h. omega arith;
    }
group_digits-IsGrouped (suc (suc (suc n))) (a ∷ cs) e = absurd (omega arith)

-- The string for display is the characters of the number in groups with single spaces between them: a
-- first group of one to three characters, where there is any, and behind it groups of three.
pub get_beautiful_number_string-IsGrouped :
    (cs : List ℕ) → IsGrouped cs (get_beautiful_number_string cs)
unfolding get_beautiful_number_string
get_beautiful_number_string-IsGrouped cs = group_digits-IsGrouped (length cs % 3) cs refl
