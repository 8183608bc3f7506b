-- ===== src/Client/Comm/Ends.antt =====
-- The functions of lib/server-comm.c and lib/wrapper.c that come back.
use aleakd.Base.{Bool, true, ◌≡◌, if◌then◌else◌}
use aleakd.Client.Comm.{Run, done, ◌>>=◌}

-- The function comes back, in a state with the property.
abbrev pub Ends : {A : Type 0} → (A → Type 0) → Run A → Type 0
Ends P (done c) = P c
Ends P Run.overflow = ⊥
Ends P Run.crashed = ⊥
Ends P Run.exited = ⊥

pub Ends-then :
    {A B : Type 0} (P : A → Type 0) (Q : B → Type 0) (f : A → Run B) (r : Run A)
    → Ends P r
    → ((c : A) → P c → Ends Q (f c))
    → Ends Q (r >>= f)
Ends-then P Q f (done c) p q = q c p
Ends-then P Q f Run.overflow p q = absurd p
Ends-then P Q f Run.crashed p q = absurd p
Ends-then P Q f Run.exited p q = absurd p

pub Ends-if_true :
    {A : Type 0} (P : A → Type 0) (b : Bool) (r r' : Run A)
    → b ≡ true
    → Ends P r
    → Ends P (if b then r else r')
Ends-if_true P b r r' e p = rw (e) p

pub Ends-map :
    {A : Type 0} (P Q : A → Type 0) (r : Run A)
    → Ends P r
    → ((a : A) → P a → Ends Q (done a))
    → Ends Q r
Ends-map P Q (done a) p f = f a p
Ends-map P Q Run.overflow p f = p
Ends-map P Q Run.crashed p f = p
Ends-map P Q Run.exited p f = p

-- What holds of the state, if the function comes back.
abbrev pub IfEnds : {A : Type 0} → (A → Type 0) → Run A → Type 0
IfEnds P (done c) = P c
IfEnds P Run.overflow = Unit {0}
IfEnds P Run.crashed = Unit {0}
IfEnds P Run.exited = Unit {0}

pub IfEnds-then :
    {A B : Type 0} (P : A → Type 0) (Q : B → Type 0) (f : A → Run B) (r : Run A)
    → IfEnds P r
    → ((c : A) → P c → IfEnds Q (f c))
    → IfEnds Q (r >>= f)
IfEnds-then P Q f (done c) p q = q c p
IfEnds-then P Q f Run.overflow p q = tt
IfEnds-then P Q f Run.crashed p q = tt
IfEnds-then P Q f Run.exited p q = tt

pub Ends-IfEnds :
    {A : Type 0} (P Q : A → Type 0) (r : Run A) → Ends P r → IfEnds Q r → Ends (λ a. P a × Q a) r
Ends-IfEnds P Q (done a) p q = (p, q)
Ends-IfEnds P Q Run.overflow p q = p
Ends-IfEnds P Q Run.crashed p q = p
Ends-IfEnds P Q Run.exited p q = p

pub IfEnds-always : {A : Type 0} (r : Run A) → IfEnds (λ a. Unit {0}) r
IfEnds-always (done c) = tt
IfEnds-always Run.overflow = tt
IfEnds-always Run.crashed = tt
IfEnds-always Run.exited = tt
