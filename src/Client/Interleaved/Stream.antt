-- ===== src/Client/Interleaved/Stream.antt =====
-- What reaches the pipe when several threads use lib/server-comm.c at once.
use aleakd.Client.Comm.Ends.{Ends, Ends-map, Ends-then}
use aleakd.Client.Comm.{Comm, send_safe, header_init}
use aleakd.Client.Comm.Buffer.{IsBuffering, written, send_safe-IsBuffering}
use aleakd.Base.{
  zero, suc, suc, false, subst, Bool, eq→==, true, get_elem?-set_ne, get_elem?-lt,
  get_elem?-set_self, ==→eq, set, ℕ, ◌≡◌, refl, sym, ap, ◌∙◌, Option, none, some, List, [], ◌∷◌,
  ◌++◌, append_assoc, append-nil, map, get_elem?, ◌==◌, if◌then◌else◌, Bool-cases, inl, inr,
}
use aleakd.Client.Interleaved.{
  new_world, new_thread, proceed, take_turn, run_schedule, Request, Made, made_bytes, Thread, World,
}
use aleakd.Client.Interleaved.Sent.{
  stream, stream-append, sent_by, sent_by-append, requests, work, work_of, IsSmall, AllSmall,
  small-made_bytes, AllSmall-append, requests-append,
}

-- What a step of a thread changes for thread `j`, where `b` says whether it is the same.
work-sent :
    (b : Bool) (ms : List Made) (m : Made) (rs : List Request) (old : Option Thread)
    → (b ≡ true → old ≡ some (record { held = some m; todo = rs }))
    → work_of
        (ms ++ (if b then m ∷ [] else []))
        (if b then some (record { held = none; todo = rs }) else old)
      ≡ work_of ms old
work-sent false ms m rs old at = ap (λ l. work_of l old) (append-nil ms)
work-sent true ms m rs old at = requests-append ms m rs ∙ ap (work_of ms) (sym (at refl))

work-made :
    (b : Bool) (ms : List Made) (m : Made) (rs : List Request) (old : Option Thread)
    → (b ≡ true → old ≡ some (record { held = none; todo = m.request ∷ rs }))
    → work_of ms (if b then some (record { held = some m; todo = rs }) else old) ≡ work_of ms old
work-made false ms m rs old at = refl
work-made true ms m rs old at = ap (work_of ms) (sym (at refl))

pub get_elem?-set :
    {A : Type 0} (xs : List A) (i j : ℕ) (x y : A)
    → get_elem? xs i ≡ some x
    → get_elem? (set xs i y) j ≡ (if i == j then some y else get_elem? xs j)
get_elem?-set xs i j x y at = elim (Bool-cases (i == j)) [
  | inl e ↦ rw (e, sym (==→eq i j e)) (get_elem?-set_self xs i y (get_elem?-lt xs i at))
  | inr e ↦
      rw e (get_elem?-set_ne xs i j y (λ same. let t : (i == j) ≡ true = eq→== i j same in cc))
]

pub same_place :
    {A : Type 0} (xs : List A) (i j : ℕ) {x : A}
    → get_elem? xs i ≡ some x
    → (i == j) ≡ true
    → get_elem? xs j ≡ some x
same_place xs i j at e = ap (get_elem? xs) (sym (==→eq i j e)) ∙ at

-- The threads have these messages to send, and what they have sent is behind `acc` in the pipe.
pub record Keeps (acc : List ℕ) (todo : ℕ → List Request) (w : World) : Type 0 where
  pub buffering : IsBuffering (acc ++ stream w.log) w.comm
  pub same : (j : ℕ) → work j w ≡ todo j

module _ (acc : List ℕ) (todo : ℕ → List Request) (small : (j : ℕ) → AllSmall (todo j)) where
  proceed-Keeps :
      (i : ℕ) (held : Option Made) (rs : List Request) (w : World)
      → get_elem? w.threads i ≡ some (record { held = held; todo = rs })
      → Keeps acc todo w
      → Ends (Keeps acc todo) (proceed i held rs w)
  unfolding proceed header_init
  proceed-Keeps i (some m) rs w at k =
      Ends-then (IsBuffering ((acc ++ stream w.log) ++ made_bytes m)) (Keeps acc todo) _
        (send_safe (made_bytes m) w.comm)
        (send_safe-IsBuffering (made_bytes m) (acc ++ stream w.log) w.comm
          (small-made_bytes m (held-IsSmall (small i) (k.same i) at)) k.buffering)
        λ c b. record {
          buffering =
              subst (λ bs. IsBuffering bs c)
                (append_assoc acc (stream w.log) (made_bytes m)
                  ∙ ap (◌++◌ acc) (sym (stream-append w.log i m)))
                b;
          same = λ j.
              rw
                (
                  sent_by-append j i m w.log,
                  get_elem?-set w.threads i j _ (record { held = none; todo = rs }) at,
                )
                (work-sent (i == j) (sent_by j w.log) m rs (get_elem? w.threads j)
                    (same_place w.threads i j at)
                  ∙ k.same j);
        }
    where
      held-IsSmall :
          AllSmall (todo i)
          → work i w ≡ todo i
          → get_elem? w.threads i ≡ some (record { held = some m; todo = rs })
          → IsSmall m.request
      held-IsSmall all e at =
          (AllSmall-append (requests (sent_by i w.log)) (m.request ∷ rs)
            (subst AllSmall (sym e ∙ ap (work_of (sent_by i w.log)) at) all)).0
  proceed-Keeps i none [] w at k = k
  proceed-Keeps i none (r ∷ rs) w at k =
      let m : Made = record { request = r; header = (header_init r.now w.comm).0 } in
      record {
        buffering = k.buffering;
        same = λ j. rw (get_elem?-set w.threads i j _ (record { held = some m; todo = rs }) at) (
            work-made (i == j) (sent_by j w.log) m rs (get_elem? w.threads j)
              (same_place w.threads i j at)
            ∙ k.same j);
      }

  take_turn-Keeps :
      (i : ℕ) (t : Option Thread) (w : World)
      → get_elem? w.threads i ≡ t
      → Keeps acc todo w
      → Ends (Keeps acc todo) (take_turn i t w)
  unfolding take_turn
  take_turn-Keeps i none w at k = k
  take_turn-Keeps i (some t) w at k = proceed-Keeps i t.held t.todo w at k

  pub run_schedule-Keeps :
      (schedule : List ℕ) (w : World)
      → Keeps acc todo w
      → Ends (Keeps acc todo) (run_schedule schedule w)
  unfolding run_schedule
  run_schedule-Keeps [] w k = k
  run_schedule-Keeps (i ∷ is) w k =
      Ends-then (Keeps acc todo) (Keeps acc todo) (run_schedule is)
        (take_turn i (get_elem? w.threads i) w) (take_turn-Keeps i (get_elem? w.threads i) w refl k)
        (λ w' k'. run_schedule-Keeps is w' k')

-- What thread `i` is given to send.
abbrev pub given : List (List Request) → ℕ → List Request
given [] i = []
given (rs ∷ rss) zero = rs
given (rs ∷ rss) (suc i) = given rss i

abbrev pub AllThreadsSmall : List (List Request) → Type 0
AllThreadsSmall [] = Unit {0}
AllThreadsSmall (rs ∷ rss) = AllSmall rs × AllThreadsSmall rss

pub given-AllSmall :
    (rss : List (List Request)) → AllThreadsSmall rss → (i : ℕ) → AllSmall (given rss i)
given-AllSmall [] small i = tt
given-AllSmall (rs ∷ rss) small zero = small.0
given-AllSmall (rs ∷ rss) small (suc i) = given-AllSmall rss small.1 i

work-start :
    (rss : List (List Request)) (i : ℕ)
    → work_of [] (get_elem? (map new_thread rss) i) ≡ given rss i
work-start [] i = refl
work-start (rs ∷ rss) zero = refl
work-start (rs ∷ rss) (suc i) = work-start rss i

pub new_world-Keeps :
    (c : Comm) (rss : List (List Request)) (acc : List ℕ)
    → IsBuffering acc c
    → Keeps acc (given rss) (new_world c rss)
unfolding stream sent_by
new_world-Keeps c rss acc buffering = record {
  buffering = subst (λ bs. IsBuffering bs c) (sym (append-nil acc)) buffering;
  same = work-start rss;
}

-- However the steps of the threads follow one another, with a connection whose buffer has `acc` before
-- it and messages that fit into that buffer: every step comes back, the pipe and the buffer hold `acc`
-- and then whole messages, and what each thread has sent, the message that it holds and what is left to
-- it are together what it was given, in its order.
pub run_schedule-stream :
    (schedule : List ℕ) (c : Comm) (rss : List (List Request)) (acc : List ℕ)
    → IsBuffering acc c
    → AllThreadsSmall rss
    → Ends
        (λ w. (written w.comm ≡ acc ++ stream w.log) × ((i : ℕ) → work i w ≡ given rss i))
        (run_schedule schedule (new_world c rss))
run_schedule-stream schedule c rss acc buffering small =
    Ends-map (Keeps acc (given rss)) _ (run_schedule schedule (new_world c rss))
      (run_schedule-Keeps acc (given rss) (given-AllSmall rss small) schedule (new_world c rss)
        (new_world-Keeps c rss acc buffering))
      (λ w k. (k.buffering.3, k.same))
