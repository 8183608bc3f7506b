-- ===== src/Client/Interleaved/Rising.antt =====
-- Rising numbers of the messages that one thread of lib/server-comm.c makes.
use aleakd.Base.{
  ℕ, ◌≤◌, ◌<◌, ◌≡◌, refl, subst, Bool, true, false, Option, none, some, List, [], ◌∷◌, ◌++◌,
  append-nil, if◌then◌else◌, arith,
}
use aleakd.Client.Interleaved.{Request, Made, Thread}
use aleakd.Client.Interleaved.Sent.{held_by}

-- Numbers that rise from above `lo` up to `hi`.
abbrev pub NumbersRise : ℕ → ℕ → List Made → Type 0
NumbersRise lo hi [] = lo ≤ hi
NumbersRise lo hi (m ∷ ms) = (lo < m.header.msg_num) × NumbersRise m.header.msg_num hi ms

pub NumbersRise-more :
    (lo hi hi' : ℕ) (ms : List Made) → hi ≤ hi' → NumbersRise lo hi ms → NumbersRise lo hi' ms
NumbersRise-more lo hi hi' [] le h = omega arith
NumbersRise-more lo hi hi' (m ∷ ms) le h = (h.0, NumbersRise-more m.header.msg_num hi hi' ms le h.1)

pub NumbersRise-end :
    (lo hi : ℕ) (m : Made) (ms : List Made)
    → hi < m.header.msg_num
    → NumbersRise lo hi ms
    → NumbersRise lo m.header.msg_num (ms ++ m ∷ [])
NumbersRise-end lo hi m [] less h = (omega arith, omega arith)
NumbersRise-end lo hi m (n ∷ ms) less h = (h.0, NumbersRise-end n.header.msg_num hi m ms less h.1)

NumbersRise-le : (lo hi : ℕ) (ms : List Made) → NumbersRise lo hi ms → lo ≤ hi
NumbersRise-le lo hi [] h = h
NumbersRise-le lo hi (m ∷ ms) h = omega (arith, h.0, NumbersRise-le m.header.msg_num hi ms h.1)

pub NumbersRise-front :
    (lo hi : ℕ) (ms ns : List Made) → NumbersRise lo hi (ms ++ ns) → NumbersRise lo hi ms
NumbersRise-front lo hi [] ns h = NumbersRise-le lo hi ns h
NumbersRise-front lo hi (m ∷ ms) ns h = (h.0, NumbersRise-front m.header.msg_num hi ms ns h.1)

-- The numbers that a step of a thread leaves for thread `j`, where `b` says whether it is the same.
pub rising-sent :
    (b : Bool) (lo hi : ℕ) (ms : List Made) (m : Made) (rs : List Request) (old : Option Thread)
    → (b ≡ true → old ≡ some (record { held = some m; todo = rs }))
    → NumbersRise lo hi (ms ++ held_by old)
    → NumbersRise lo hi (
        (ms ++ (if b then m ∷ [] else []))
        ++ held_by (if b then some (record { held = none; todo = rs }) else old))
rising-sent false lo hi ms m rs old at h = rw (append-nil ms) h
rising-sent true lo hi ms m rs old at h =
    rw (append-nil (ms ++ m ∷ [])) (subst (λ o. NumbersRise lo hi (ms ++ held_by o)) (at refl) h)

pub rising-made :
    (b : Bool) (lo hi : ℕ) (ms : List Made) (m : Made) (rs rs' : List Request) (old : Option Thread)
    → hi < m.header.msg_num
    → (b ≡ true → old ≡ some (record { held = none; todo = rs' }))
    → NumbersRise lo hi (ms ++ held_by old)
    → NumbersRise lo m.header.msg_num
        (ms ++ held_by (if b then some (record { held = some m; todo = rs }) else old))
rising-made false lo hi ms m rs rs' old less at h =
    NumbersRise-more lo hi m.header.msg_num (ms ++ held_by old) (omega arith) h
rising-made true lo hi ms m rs rs' old less at h = NumbersRise-end lo hi m ms less (
    subst (NumbersRise lo hi) (append-nil ms)
      (subst (λ o. NumbersRise lo hi (ms ++ held_by o)) (at refl) h))
