-- ===== src/Model/Threads/Count.antt =====
-- server/Model/ThreadInfos.cpp: how many entries of a list a search could find.
use aleakd.Base.{
  ℕ, ◌+◌, ◌≤◌, ◌<◌, ◌≡◌, refl, Bool, true, false, none, some, List, [], ◌∷◌, ◌++◌, if◌then◌else◌,
  arith,
}
use aleakd.Shared.Wire.{AllBelow}
use aleakd.Model.Records.{ThreadInfos}
use aleakd.Model.Objects.{holds}
use aleakd.Model.Operations.{find_first}
use aleakd.Model.Threads.{remove_by_id, has_id}

abbrev pub one_if : Bool → ℕ
one_if b = if b then 1 else 0

unfoldable pub count_if : (ℕ → Bool) → List ℕ → ℕ
count_if p [] = 0
count_if p (r ∷ rs) = one_if (p r) + count_if p rs

pub find_first-none : (p : ℕ → Bool) (l : List ℕ) → find_first p l ≡ none → count_if p l ≡ 0
unfolding find_first count_if
find_first-none p [] e = refl
find_first-none p (r ∷ rs) e = step (p r) e (find_first-none p rs)
  where
    step :
        (b : Bool)
        → (if b then some r else find_first p rs) ≡ none
        → (find_first p rs ≡ none → count_if p rs ≡ 0)
        → one_if b + count_if p rs ≡ 0
    step true e go = absurd (cc)
    step false e go = omega (arith, go e)

pub count_if-append :
    (p : ℕ → Bool) (l : List ℕ) (r : ℕ) → count_if p (l ++ r ∷ []) ≡ count_if p l + one_if (p r)
unfolding count_if
count_if-append p [] r = omega arith
count_if-append p (k ∷ l) r = omega (arith, count_if-append p l r)

pub count_if-agree :
    (p q : ℕ → Bool) (n : ℕ) (l : List ℕ)
    → AllBelow n l
    → ((r : ℕ) → r < n → p r ≡ q r)
    → count_if p l ≡ count_if q l
unfolding count_if
count_if-agree p q n [] f same = refl
count_if-agree p q n (r ∷ l) f same = rw (same r f.0, count_if-agree p q n l f.1 same) refl

pub AllBelow-weaken : (n m : ℕ) (l : List ℕ) → n ≤ m → AllBelow n l → AllBelow m l
AllBelow-weaken n m [] h f = tt
AllBelow-weaken n m (r ∷ l) h f = (omega arith, AllBelow-weaken n m l h f.1)

pub AllBelow-append : (n : ℕ) (l : List ℕ) (r : ℕ) → AllBelow n l → r < n → AllBelow n (l ++ r ∷ [])
AllBelow-append n [] r f h = (h, tt)
AllBelow-append n (k ∷ l) r f h = (f.0, AllBelow-append n l r f.1 h)

module _ (objects : List ThreadInfos) (id : ℕ) where
  -- No entry with the id is left.
  pub count_if-remove_by_id :
      (l : List ℕ) → count_if (holds objects (has_id id)) (remove_by_id objects id l) ≡ 0
  unfolding count_if remove_by_id
  count_if-remove_by_id [] = refl
  count_if-remove_by_id (r ∷ l) = ground (arith, count_if-remove_by_id l)

  -- No other test finds more entries than before.
  pub count_if-remove_by_id_le :
      (p : ℕ → Bool) (l : List ℕ) → count_if p (remove_by_id objects id l) ≤ count_if p l
  unfolding count_if remove_by_id
  count_if-remove_by_id_le p [] = omega arith
  count_if-remove_by_id_le p (r ∷ l) = ground (arith, count_if-remove_by_id_le p l)

  pub remove_by_id-AllBelow :
      (n : ℕ) (l : List ℕ) → AllBelow n l → AllBelow n (remove_by_id objects id l)
  unfolding remove_by_id
  remove_by_id-AllBelow n [] f = tt
  remove_by_id-AllBelow n (r ∷ l) f =
      step (holds objects (has_id id) r) (remove_by_id-AllBelow n l f.1)
    where
      step :
          (b : Bool)
          → AllBelow n (remove_by_id objects id l)
          → AllBelow n (if b then remove_by_id objects id l else r ∷ remove_by_id objects id l)
      step true g = g
      step false g = (f.0, g)
