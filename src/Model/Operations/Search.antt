-- ===== src/Model/Operations/Search.antt =====
-- Lists of pointers that rise, as the lists of MemoryOperationList do, and the search from the end of
-- server/Model/MemoryOperation.cpp on them.
use aleakd.Base.{
  ℕ, suc, ◌+◌, ◌≤◌, ◌<◌, ◌≡◌, refl, ap, Bool, true, not, ◌&&◌, Option, none, some, List, [], ◌∷◌,
  ◌++◌, ◌==◌, if◌then◌else◌, arith, Bool-cases, Option-cases, inl, inr,
}
use aleakd.Model.Operations.{take_last}

-- The pointers that pass a test.
abbrev pub keep : (ℕ → Bool) → List ℕ → List ℕ
keep p [] = []
keep p (r ∷ rs) = if p r then r ∷ keep p rs else keep p rs

-- The pointers rise from `lo` and stay under `n`.
abbrev pub Rising : ℕ → ℕ → List ℕ → Type 0
Rising lo n [] = Unit {0}
Rising lo n (r ∷ rs) = (lo ≤ r) × (r < n) × Rising (suc r) n rs

pub Rising-append :
    (lo n : ℕ) (rs : List ℕ) → lo ≤ n → Rising lo n rs → Rising lo (suc n) (rs ++ n ∷ [])
Rising-append lo n [] h w = (h, omega arith, tt)
Rising-append lo n (r ∷ rs) h w = (w.0, omega arith, Rising-append (suc r) n rs (omega arith) w.2)

Rising-lower : (lo lo' n : ℕ) (rs : List ℕ) → lo' ≤ lo → Rising lo n rs → Rising lo' n rs
Rising-lower lo lo' n [] h w = tt
Rising-lower lo lo' n (r ∷ rs) h w = (omega arith, w.1, w.2)

pub keep-Rising : (p : ℕ → Bool) (lo n : ℕ) (rs : List ℕ) → Rising lo n rs → Rising lo n (keep p rs)
keep-Rising p lo n [] w = tt
keep-Rising p lo n (r ∷ rs) w = elim (Bool-cases (p r)) [
  | inl e ↦ rw e (w.0, w.1, keep-Rising p (suc r) n rs w.2)
  | inr e ↦
      rw e (Rising-lower (suc r) lo n (keep p rs) (omega arith) (keep-Rising p (suc r) n rs w.2))
]

pub keep-append :
    (p : ℕ → Bool) (rs : List ℕ) (r : ℕ)
    → keep p (rs ++ r ∷ []) ≡ (if p r then keep p rs ++ r ∷ [] else keep p rs)
keep-append p [] r = refl
keep-append p (q ∷ rs) r = ground (arith, keep-append p rs r)

-- Tests that agree on the pointers of a list keep the same of it.
pub keep-agree :
    (p q : ℕ → Bool) (lo n : ℕ) (rs : List ℕ)
    → ((r : ℕ) → lo ≤ r → r < n → p r ≡ q r)
    → Rising lo n rs
    → keep p rs ≡ keep q rs
keep-agree p q lo n [] e w = refl
keep-agree p q lo n (r ∷ rs) e w = rw (e r w.0 w.1) (
    ap (λ ks. if q r then r ∷ ks else ks)
      (keep-agree p q (suc r) n rs (λ k h l. e k (omega arith) l) w.2))

unfoldable pub sum_over : (ℕ → ℕ) → List ℕ → ℕ
sum_over f [] = 0
sum_over f (r ∷ rs) = f r + sum_over f rs

pub sum_over-append :
    (f : ℕ → ℕ) (rs : List ℕ) (r : ℕ) → sum_over f (rs ++ r ∷ []) ≡ sum_over f rs + f r
unfolding sum_over
sum_over-append f [] r = omega arith
sum_over-append f (q ∷ rs) r = omega (arith, sum_over-append f rs r)

pub sum_over-agree :
    (f g : ℕ → ℕ) (lo n : ℕ) (rs : List ℕ)
    → ((r : ℕ) → r < n → f r ≡ g r)
    → Rising lo n rs
    → sum_over f rs ≡ sum_over g rs
unfolding sum_over
sum_over-agree f g lo n [] e w = refl
sum_over-agree f g lo n (r ∷ rs) e w = omega (arith, e r w.1, sum_over-agree f g (suc r) n rs e w.2)

pub take_last-sum :
    (p : ℕ → Bool) (f : ℕ → ℕ) (rs : List ℕ) {r : ℕ} {rest : List ℕ}
    → take_last p rs ≡ some (r, rest)
    → (p r ≡ true) × (sum_over f rs ≡ f r + sum_over f rest)
unfolding take_last sum_over
take_last-sum p f [] e = cc
take_last-sum p f (x ∷ xs) {r} {rest} e = elim (Option-cases (take_last p xs)) [
  | inl missing ↦ ground arith
  | inr (found, e') ↦ ground (arith, take_last-sum p f xs {r = found.0} {rest = found.1} e')
]

-- A search among the pointers that pass `q`: what it leaves are the others that pass `q`.
pub take_last-keep :
    (p q : ℕ → Bool) (lo n : ℕ) (xs : List ℕ) {r : ℕ} {rest : List ℕ}
    → Rising lo n xs
    → take_last p (keep q xs) ≡ some (r, rest)
    → (lo ≤ r) × (r < n) × (rest ≡ keep (λ k. q k && not (k == r)) xs)
unfolding take_last
take_last-keep p q lo n [] w e = cc
take_last-keep p q lo n (x ∷ xs) {r} {rest} w e = elim (Bool-cases (q x)) [
  | inl kept ↦ elim (Option-cases (take_last p (keep q xs))) [
    | inl missing ↦
        let same : keep q xs ≡ keep (λ k. q k && not (k == x)) xs =
          keep-agree q (λ k. q k && not (k == x)) (suc x) n xs (λ k h l. ground arith) w.2 in
        ground (arith, same)
    | inr (found, e') ↦
        ground (arith, take_last-keep p q (suc x) n xs {r = found.0} {rest = found.1} w.2 e')
  ]
  | inr dropped ↦
      let later = take_last-keep p q (suc x) n xs {r = r} {rest = rest} w.2 (rw dropped at e) in
      ground (arith, later)
]

-- The pointer that a search from the end gives.
abbrev pub taken_pointer : Option (ℕ × List ℕ) → Option ℕ
taken_pointer none = none
taken_pointer (some (r, rest)) = some r

-- A search for what passes `p` need not look at pointers that fail `q`, where `p` implies `q`.
pub take_last-keep_pointer :
    (p q : ℕ → Bool) (xs : List ℕ)
    → ((r : ℕ) → p r ≡ true → q r ≡ true)
    → taken_pointer (take_last p (keep q xs)) ≡ taken_pointer (take_last p xs)
unfolding take_last
take_last-keep_pointer p q [] h = refl
take_last-keep_pointer p q (x ∷ xs) h = ground (arith, take_last-keep_pointer p q xs h, h x)
