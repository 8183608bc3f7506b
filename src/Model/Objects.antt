-- ===== src/Model/Objects.antt =====
-- Objects behind a `QSharedPointer`: a test and an assignment through a pointer, which is a position
-- in the list of the objects.
use aleakd.Base.{
  get_elem?-append_end, get_elem?-append_left, ◌++◌, ◌<◌, ℕ, zero, suc, ◌≡◌, ◌≢◌, refl, ap, ◌&&◌,
  not, Bool, false, Option, none, some, List, [], ◌∷◌, ◌==◌, length, get_elem?, arith,
}

abbrev pub field_or {ℓ κ} : {A : Type ℓ} {B : Type κ} → B → (A → B) → Option A → B
field_or d f none = d
field_or d f (some a) = f a

-- The object that a pointer leads to, if it is not null.
abbrev pub deref {ℓ} : {A : Type ℓ} → List A → Option ℕ → Option A
deref objects none = none
deref objects (some r) = get_elem? objects r

-- A value read through a pointer, with a default for a pointer that leads nowhere.
abbrev pub read_at {ℓ κ} : {A : Type ℓ} {B : Type κ} → B → (A → B) → List A → ℕ → B
read_at d f objects r = field_or d f (get_elem? objects r)

-- A test on the object that a pointer leads to.
abbrev pub holds {ℓ} : {A : Type ℓ} → List A → (A → Bool) → ℕ → Bool
holds objects p r = read_at false p objects r

-- An assignment through a pointer.
abbrev pub modify {ℓ} : {A : Type ℓ} → (A → A) → ℕ → List A → List A
modify f r [] = []
modify f zero (x ∷ xs) = f x ∷ xs
modify f (suc r) (x ∷ xs) = x ∷ modify f r xs

module _ {ℓ} {A : Type ℓ} (f : A → A) where
  pub length-modify : (r : ℕ) (xs : List A) → length (modify f r xs) ≡ length xs
  length-modify r [] = refl
  length-modify zero (x ∷ xs) = refl
  length-modify (suc r) (x ∷ xs) = ap suc (length-modify r xs)

  -- Only the object that the pointer leads to is changed.
  pub get_elem?-modify_self :
      (r : ℕ) (xs : List A) {a : A}
      → get_elem? xs r ≡ some a
      → get_elem? (modify f r xs) r ≡ some (f a)
  get_elem?-modify_self r [] e = cc
  get_elem?-modify_self zero (x ∷ xs) e = cc
  get_elem?-modify_self (suc r) (x ∷ xs) e = get_elem?-modify_self r xs e

  pub get_elem?-modify_ne :
      (r k : ℕ) (xs : List A) → r ≢ k → get_elem? (modify f r xs) k ≡ get_elem? xs k
  get_elem?-modify_ne r k [] ne = refl
  get_elem?-modify_ne zero zero (x ∷ xs) ne = absurd (ne refl)
  get_elem?-modify_ne zero (suc k) (x ∷ xs) ne = refl
  get_elem?-modify_ne (suc r) zero (x ∷ xs) ne = refl
  get_elem?-modify_ne (suc r) (suc k) (x ∷ xs) ne = get_elem?-modify_ne r k xs (λ e. ne (ap suc e))

  -- A value that the assignment does not touch.
  pub read_at-modify {κ} :
      {B : Type κ} (d : B) (g : A → B) (r k : ℕ) (xs : List A)
      → ((a : A) → g (f a) ≡ g a)
      → read_at d g (modify f r xs) k ≡ read_at d g xs k
  read_at-modify d g r k [] same = refl
  read_at-modify d g zero zero (x ∷ xs) same = same x
  read_at-modify d g zero (suc k) (x ∷ xs) same = refl
  read_at-modify d g (suc r) zero (x ∷ xs) same = refl
  read_at-modify d g (suc r) (suc k) (x ∷ xs) same = read_at-modify d g r k xs same

  -- A test that fails after the assignment, and before it reads what it reads elsewhere.
  pub holds-modify_fails :
      (p : A → Bool) (r k : ℕ) (xs : List A)
      → ((a : A) → p (f a) ≡ false)
      → holds (modify f r xs) p k ≡ (holds xs p k && not (k == r))
  holds-modify_fails p r k [] fails = refl
  holds-modify_fails p zero zero (x ∷ xs) fails = ground (arith, fails x)
  holds-modify_fails p zero (suc k) (x ∷ xs) fails = ground arith
  holds-modify_fails p (suc r) zero (x ∷ xs) fails = ground arith
  holds-modify_fails p (suc r) (suc k) (x ∷ xs) fails =
      ground (arith, holds-modify_fails p r k xs fails)

-- The objects that are there keep their values when one more is added behind them.
pub read_at-append {ℓ κ} :
    {A : Type ℓ} {B : Type κ} (d : B) (g : A → B) (xs : List A) (a : A) (r : ℕ)
    → r < length xs
    → read_at d g (xs ++ a ∷ []) r ≡ read_at d g xs r
read_at-append d g xs a r h = ap (field_or d g) (get_elem?-append_left xs (a ∷ []) r h)

pub read_at-append_end {ℓ κ} :
    {A : Type ℓ} {B : Type κ} (d : B) (g : A → B) (xs : List A) (a : A)
    → read_at d g (xs ++ a ∷ []) (length xs) ≡ g a
read_at-append_end d g xs a = ap (field_or d g) (get_elem?-append_end xs a)
