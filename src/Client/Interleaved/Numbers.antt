-- ===== src/Client/Interleaved/Numbers.antt =====
-- The numbers that the messages of several threads get from lib/server-comm.c.
use aleakd.Base.{
  ne→==, ==→eq, ℕ, suc, zero, ◌+◌, ◌≤◌, ◌<◌, ◌^◌, ◌≡◌, refl, ap, Bool, true, false, Option, none,
  some, List, [], ◌∷◌, ◌++◌, map, length, get_elem?, set, ◌==◌, if◌then◌else◌, Bool-cases, inl, inr,
  ltb, leb, arith,
}
use aleakd.Client.Comm.{
  Comm, Run, header_init, send_safe, send, flush_if_full, send_physical, buffer_size,
}
use aleakd.Client.Comm.Ends.{Ends, Ends-map, IfEnds, IfEnds-then, Ends-IfEnds}
use aleakd.Client.Comm.Buffer.{IsBuffering}
use aleakd.Client.Interleaved.{
  Request, Made, made_bytes, Thread, World, proceed, take_turn, run_schedule, new_thread, new_world,
}
use aleakd.Client.Interleaved.Stream.{
  get_elem?-set, same_place, run_schedule-stream, AllThreadsSmall,
}
use aleakd.Client.Interleaved.Rising.{NumbersRise, NumbersRise-front, rising-sent, rising-made}
use aleakd.Client.Interleaved.Sent.{sent_by, sent_by-append, held_by}

flush_if_full-msg_num : (n : ℕ) (c : Comm) → (flush_if_full n c).msg_num ≡ c.msg_num
unfolding flush_if_full send_physical
flush_if_full-msg_num n c = elim (Bool-cases (leb buffer_size (length c.transfer_buffer + n))) [
  | inl e ↦ rw e refl
  | inr e ↦ rw e refl
]

if-IfEnds :
    {A : Type 0} (P : A → Type 0) (b : Bool) (r s : Run A)
    → IfEnds P r
    → IfEnds P s
    → IfEnds P (if b then r else s)
if-IfEnds P true r s p q = p
if-IfEnds P false r s p q = q

send_safe-msg_num :
    (bs : List ℕ) (c : Comm) → IfEnds (λ c'. c'.msg_num ≡ c.msg_num) (send_safe bs c)
unfolding send_safe send send_physical
send_safe-msg_num bs c =
    let P : Comm → Type 0 = λ c'. c'.msg_num ≡ c.msg_num in
    if-IfEnds P c.opened _ _
      (if-IfEnds P c.transfer_enabled _ _
        (if-IfEnds P
          (ltb buffer_size (length (flush_if_full (length bs) c).transfer_buffer + length bs)) _ _
          tt (flush_if_full-msg_num (length bs) c))
        refl)
      (if-IfEnds P (ltb buffer_size (length c.pre_init_buffer + length bs)) _ _ tt refl)

-- How many of the messages have the number `k`.
abbrev one : ℕ → Made → ℕ
one k m = if m.header.msg_num == k then 1 else 0

unfoldable pub sent_count : ℕ → List (ℕ × Made) → ℕ
sent_count k [] = 0
sent_count k ((i, m) ∷ ms) = one k m + sent_count k ms

abbrev held_count : ℕ → Option Made → ℕ
held_count k none = 0
held_count k (some m) = one k m

sent_count-append :
    (k i : ℕ) (m : Made) (ms : List (ℕ × Made))
    → sent_count k (ms ++ (i, m) ∷ []) ≡ sent_count k ms + one k m
unfolding sent_count
sent_count-append k i m [] = omega arith
sent_count-append k i m ((j, n) ∷ ms) = omega (arith, sent_count-append k i m ms)

-- A sum over all threads, and how it changes with one thread.
abbrev total : (Thread → ℕ) → List Thread → ℕ
total f [] = 0
total f (t ∷ ts) = f t + total f ts

total-set :
    (f : Thread → ℕ) (ts : List Thread) (i : ℕ) (t t' : Thread)
    → get_elem? ts i ≡ some t
    → total f (set ts i t') + f t ≡ total f ts + f t'
total-set f [] i t t' e = cc
total-set f (u ∷ ts) zero t t' e =
    let same : f u ≡ f t = ap (λ o. elim o [ none ↦ 0 | some x ↦ f x ]) e in omega arith
total-set f (u ∷ ts) (suc i) t t' e = omega (arith, total-set f ts i t t' e)

-- No number stands in two messages or is above the last one, there are numbers for what is left, and
-- those of each thread rise.
record IsNumbered (lo : ℕ) (w : World) : Type 0 where
  room : w.comm.msg_num + total (λ t. length t.todo) w.threads < 2 ^ 32
  once : (k : ℕ) → sent_count k w.log + total (λ t. held_count k t.held) w.threads ≤ 1
  above :
      (k : ℕ)
      → w.comm.msg_num < k
      → sent_count k w.log + total (λ t. held_count k t.held) w.threads ≡ 0
  rising :
      (i : ℕ) → NumbersRise lo w.comm.msg_num (sent_by i w.log ++ held_by (get_elem? w.threads i))

one-next :
    (k hi old : ℕ) (m : Made)
    → m.header.msg_num ≡ suc hi
    → old ≤ 1
    → (hi < k → old ≡ 0)
    → old + one k m ≤ 1
one-next k hi old m next le above = elim (Bool-cases (m.header.msg_num == k)) [
  | inl e ↦
      let here : m.header.msg_num ≡ k = ==→eq m.header.msg_num k e in
      rw e (omega (arith, above (omega arith)))
  | inr e ↦ rw e (omega arith)
]

one-below : (k : ℕ) (m : Made) → m.header.msg_num < k → one k m ≡ 0
one-below k m less = rw (ne→== m.header.msg_num k (λ e. omega arith)) refl

module _ (lo : ℕ) where
  proceed-IsNumbered :
      (i : ℕ) (held : Option Made) (rs : List Request) (w : World)
      → get_elem? w.threads i ≡ some (record { held = held; todo = rs })
      → IsNumbered lo w
      → IfEnds (IsNumbered lo) (proceed i held rs w)
  unfolding proceed header_init
  proceed-IsNumbered i (some m) rs w at n =
      let t : Thread = record { held = some m; todo = rs } in
      let t' : Thread = record { held = none; todo = rs } in
      IfEnds-then (λ c. c.msg_num ≡ w.comm.msg_num) (IsNumbered lo) _
        (send_safe (made_bytes m) w.comm) (send_safe-msg_num (made_bytes m) w.comm)
        λ c same. record {
          room = omega (arith, n.room, total-set (λ t. length t.todo) w.threads i t t' at);
          once = λ k. omega (
            arith,
            n.once k,
            sent_count-append k i m w.log,
            total-set (λ t. held_count k t.held) w.threads i t t' at,
          );
          above = λ k less. omega (
            arith,
            n.above k (omega arith),
            sent_count-append k i m w.log,
            total-set (λ t. held_count k t.held) w.threads i t t' at,
          );
          rising = λ j.
              rw (same, sent_by-append j i m w.log, get_elem?-set w.threads i j t t' at)
                (rising-sent (i == j) lo w.comm.msg_num (sent_by j w.log) m rs
                  (get_elem? w.threads j) (same_place w.threads i j at) (n.rising j));
        }
  proceed-IsNumbered i none [] w at n = n
  proceed-IsNumbered i none (r ∷ rs) w at n =
      let m : Made = record { request = r; header = (header_init r.now w.comm).0 } in
      let t : Thread = record { held = none; todo = r ∷ rs } in
      let t' : Thread = record { held = some m; todo = rs } in
      let left = total-set (λ t. length t.todo) w.threads i t t' at in
      let next : m.header.msg_num ≡ suc w.comm.msg_num = omega (arith, n.room, left) in
      record {
        room = omega (arith, n.room, left);
        once = λ k. omega (
          arith,
          one-next k w.comm.msg_num _ m next (n.once k) (n.above k),
          total-set (λ t. held_count k t.held) w.threads i t t' at,
        );
        above = λ k less. omega (
          arith,
          n.above k (omega arith),
          one-below k m less,
          total-set (λ t. held_count k t.held) w.threads i t t' at,
        );
        rising = λ j. rw (get_elem?-set w.threads i j t t' at) (
            rising-made (i == j) lo w.comm.msg_num (sent_by j w.log) m rs (r ∷ rs)
              (get_elem? w.threads j) (omega arith) (same_place w.threads i j at) (n.rising j));
      }

  run_schedule-IsNumbered :
      (schedule : List ℕ) (w : World)
      → IsNumbered lo w
      → IfEnds (IsNumbered lo) (run_schedule schedule w)
  unfolding run_schedule take_turn
  run_schedule-IsNumbered [] w n = n
  run_schedule-IsNumbered (i ∷ is) w n =
      IfEnds-then (IsNumbered lo) (IsNumbered lo) (run_schedule is)
        (take_turn i (get_elem? w.threads i) w) (turn (get_elem? w.threads i) refl)
        (λ w' n'. run_schedule-IsNumbered is w' n')
    where
      turn :
          (t : Option Thread) → get_elem? w.threads i ≡ t → IfEnds (IsNumbered lo) (take_turn i t w)
      turn none at = n
      turn (some t) at = proceed-IsNumbered i t.held t.todo w at n

-- The number of messages that the threads are given.
abbrev pub size : List (List Request) → ℕ
size [] = 0
size (rs ∷ rss) = length rs + size rss

new_world-IsNumbered :
    (c : Comm) (rss : List (List Request))
    → c.msg_num + size rss < 2 ^ 32
    → IsNumbered c.msg_num (new_world c rss)
unfolding sent_by sent_count
new_world-IsNumbered c rss room = record {
  room = rw (todo_at_start rss) room;
  once = λ k. omega (arith, held_at_start k rss);
  above = λ k less. omega (arith, held_at_start k rss);
  rising = λ i. nothing_held rss i;
}
  where
    todo_at_start :
        (rss : List (List Request)) → total (λ t. length t.todo) (map new_thread rss) ≡ size rss
    todo_at_start [] = refl
    todo_at_start (rs ∷ rss) = ap (λ n. length rs + n) (todo_at_start rss)

    held_at_start :
        (k : ℕ) (rss : List (List Request))
        → total (λ t. held_count k t.held) (map new_thread rss) ≡ 0
    held_at_start k [] = refl
    held_at_start k (rs ∷ rss) = omega (arith, held_at_start k rss)

    nothing_held :
        (rss : List (List Request)) (i : ℕ)
        → NumbersRise c.msg_num c.msg_num (held_by (get_elem? (map new_thread rss) i))
    nothing_held [] i = omega arith
    nothing_held (rs ∷ rss) zero = omega arith
    nothing_held (rs ∷ rss) (suc i) = nothing_held rss i

-- However the steps of the threads follow one another, with a connection whose buffer is in order,
-- messages that fit into it, and numbers left for all of them: every step comes back, no number is sent
-- in two messages, and the messages of each thread are sent with rising numbers.
pub run_schedule-numbers :
    (schedule : List ℕ) (c : Comm) (rss : List (List Request)) (acc : List ℕ)
    → IsBuffering acc c
    → AllThreadsSmall rss
    → c.msg_num + size rss < 2 ^ 32
    → Ends
        (λ w.
          ((k : ℕ) → sent_count k w.log ≤ 1)
          × ((i : ℕ) → NumbersRise c.msg_num w.comm.msg_num (sent_by i w.log)))
        (run_schedule schedule (new_world c rss))
run_schedule-numbers schedule c rss acc buffering small room =
    let r = run_schedule schedule (new_world c rss) in
    Ends-map _ _ r
      (Ends-IfEnds _ (IsNumbered c.msg_num) r
        (run_schedule-stream schedule c rss acc buffering small)
        (run_schedule-IsNumbered c.msg_num schedule (new_world c rss)
          (new_world-IsNumbered c rss room)))
      (λ w (s, n). (
        λ k. omega (arith, n.once k),
        λ i. NumbersRise-front c.msg_num w.comm.msg_num (sent_by i w.log) _ (n.rising i),
      ))
