-- ===== src/Client/Wrapper/Names.antt =====
-- The names in the messages of lib/wrapper.c end inside their arrays.
use aleakd.Client.Comm.Ends.{Ends}
use aleakd.Base.{
  Bool, ℕ, if◌then◌else◌, true, false, Bool, zero, suc, ◌-◌, ◌<◌, ◌≡◌, refl, sym, ap, ◌∙◌, Option,
  none, some, List, [], ◌∷◌, ◌++◌, ◌==◌, length, length-append, length-replicate, replicate, ge→ltb,
  arith,
}
use aleakd.Server.Process.{c_string}
use aleakd.Server.Process.Decode.{IsTerminated}
use aleakd.Client.Wrapper.{put_name}
use aleakd.Client.Wrapper.Sends.{NameFits}

some-IsTerminated : (bs t : List ℕ) → c_string bs ≡ some t → IsTerminated bs
some-IsTerminated bs t e = e ∙ ap some (sym (ap c_text_of e))
  where
    c_text_of : Option (List ℕ) → List ℕ
    c_text_of o = elim o [ none ↦ [] | some t ↦ t ]

c_string_step :
    (b : ℕ) (at_end : Bool) (o : Option (List ℕ))
    → (t : List ℕ) × (o ≡ some t)
    → (t : List ℕ) × ((if at_end then some [] else elim o [ none ↦ none | some t ↦ some (b ∷ t) ])
        ≡ some t)
c_string_step b true o r = ([], refl)
c_string_step b false o (t, e) = (b ∷ t, rw (e) refl)

-- A zero behind some bytes ends them, if none of them does.
c_string-zeros :
    (bs : List ℕ) (k : ℕ) → (t : List ℕ) × (c_string (bs ++ replicate (suc k) 0) ≡ some t)
unfolding c_string
c_string-zeros [] k = ([], refl)
c_string-zeros (b ∷ bs) k =
    c_string_step b (b == 0) (c_string (bs ++ replicate (suc k) 0)) (c_string-zeros bs k)

pub zeros-IsTerminated : (bs : List ℕ) (k : ℕ) → 0 < k → IsTerminated (bs ++ replicate k 0)
zeros-IsTerminated bs zero h = absurd (omega arith)
zeros-IsTerminated bs (suc k) h =
    let (t, e) = c_string-zeros bs k in some-IsTerminated (bs ++ replicate (suc k) 0) t e

-- An array with a name in it.
abbrev pub IsName : ℕ → List ℕ → Type 0
IsName n bs = (length bs ≡ n) × IsTerminated bs

pub put_name-IsName :
    (n : ℕ) (o : Option (List ℕ)) → 0 < n → NameFits n o → Ends (IsName n) (put_name n o)
unfolding put_name
put_name-IsName n none h f = (length-replicate n 0, zeros-IsTerminated [] n h)
put_name-IsName n (some bs) h f = rw (ge→ltb n (length bs) (omega arith)) (
  omega (
    arith,
    length-append bs (replicate (n - length bs) 0),
    length-replicate {A = ℕ} (n - length bs) 0,
  ),
  zeros-IsTerminated bs (n - length bs) (omega arith),
)
