-- ===== src/Controller/Filter/Found.antt =====
-- What the search of QApplicationWindowController.cpp finds, and the sizes that it shows.
use native.Mathlib.Nat.{zero-add}
use aleakd.Base.{
  add32, ℕ, ◌+◌, ◌%◌, ◌^◌, ◌<◌, ◌≡◌, refl, sym, ap, ◌∙◌, Bool, true, false, Option, none, some,
  List, [], ◌∷◌, ◌++◌, append_assoc, append-nil, if◌then◌else◌, get_elem?, arith,
}
use aleakd.Model.Records.{MemoryOperation}
use aleakd.Model.Stats.{MemoryStats, reset}
use aleakd.Model.Objects.{field_or, read_at, holds}
use aleakd.Model.Operations.Search.{keep, sum_over}
use aleakd.Controller.Counters.{count_alloc_size, count_free_size, count_remaining}
use aleakd.Controller.Accounting.{SizesFit, size_at-lt, count_operation-sizes}
use aleakd.Controller.State.{Controller}
use aleakd.Controller.Filter.{
  Query, accepts, count_found, search_step, search_loop, on_filter_button_clicked,
}

-- The pointers to the accepted operations, in the order of a list.
abbrev pub accepted : Query → List MemoryOperation → List ℕ → List ℕ
accepted q objects = keep (holds objects (accepts q))

step-list :
    (q : Query) (r : ℕ) (o : Option MemoryOperation) (found rs : List ℕ) (s : MemoryStats)
    → (search_step q r o (found, s)).0 ++ rs
      ≡ found ++ (if field_or false (accepts q) o then r ∷ rs else rs)
unfolding search_step
step-list q r none found rs s = refl
step-list q r (some o) found rs s = tested (accepts q o)
  where
    tested :
        (b : Bool)
        → (let acc : List ℕ × MemoryStats =
              (if b then (found ++ r ∷ [], count_found o s) else (found, s)) in
            acc.0 ++ rs)
          ≡ found ++ (if b then r ∷ rs else rs)
    tested true = append_assoc found (r ∷ []) rs
    tested false = refl

search_loop-list :
    (q : Query) (objects : List MemoryOperation) (rs found : List ℕ) (s : MemoryStats)
    → (search_loop q objects rs (found, s)).0 ≡ found ++ accepted q objects rs
unfolding search_loop
search_loop-list q objects [] found s = sym (append-nil found)
search_loop-list q objects (r ∷ rs) found s =
    let (found', s') = search_step q r (get_elem? objects r) (found, s) in
    search_loop-list q objects rs found' s'
    ∙ step-list q r (get_elem? objects r) found (accepted q objects rs) s

-- The list that a search shows is that part of the list of all operations that is accepted, in the same
-- order.
pub on_filter_button_clicked-list :
    (q : Query) (c : Controller)
    → (on_filter_button_clicked q c).list_filter_memory_operation
      ≡ accepted q c.operations.objects c.operations.list_memory_operation
unfolding on_filter_button_clicked
on_filter_button_clicked-list q c =
    search_loop-list q c.operations.objects c.operations.list_memory_operation []
      (reset c.search_stats)

-- The three sizes, modulo 2 ^ 64.
abbrev pub ShowsSizes : MemoryStats → ℕ → ℕ → ℕ → Type 0
ShowsSizes s alloc free remaining =
    (s.total_alloc_size ≡ alloc % 2 ^ 64)
    × (s.total_free_size ≡ free % 2 ^ 64)
    × (s.total_remaining_size ≡ remaining % 2 ^ 64)

abbrev pub freed_part : MemoryOperation → ℕ
freed_part o = if o.freed then o.alloc_size else 0

abbrev pub live_part : MemoryOperation → ℕ
live_part o = if o.freed then 0 else o.alloc_size

count_found-sizes :
    (o : MemoryOperation) (s : MemoryStats) (a f r : ℕ)
    → o.alloc_size < 2 ^ 64
    → ShowsSizes s a f r
    → ShowsSizes (count_found o s) (a + o.alloc_size) (f + freed_part o) (r + live_part o)
unfolding count_found count_remaining count_alloc_size count_free_size
count_found-sizes o s a f r fits (ea, ef, er) =
    let (ca, cf, cr) = count_operation-sizes o.msg_code o.free_ptr (s2 o.freed) in
    let (sa, sf, sr) = after o.freed in (ca ∙ sa, cf ∙ sf, cr ∙ sr)
  where
    s1 : MemoryStats
    s1 =
        count_alloc_size o.alloc_size
          (record s { memory_operation_count = add32 s.memory_operation_count 1 })

    s2 : Bool → MemoryStats
    s2 b = if b then count_free_size o.alloc_size s1 else s1

    after :
        (b : Bool)
        → ShowsSizes
            (s2 b)
            (a + o.alloc_size)
            (f + (if b then o.alloc_size else 0))
            (r + (if b then 0 else o.alloc_size))
    after true = (omega arith, omega arith, omega arith)
    after false = (omega arith, omega arith, omega arith)

module _ (q : Query) (objects : List MemoryOperation) where
  abbrev sum_of : (MemoryOperation → ℕ) → List ℕ → ℕ
  sum_of part rs = sum_over (read_at 0 part objects) (accepted q objects rs)

  abbrev StepShows : ℕ → Option MemoryOperation → List ℕ → MemoryStats → ℕ → ℕ → ℕ → Type 0
  StepShows r o found s a f m =
      ShowsSizes (search_step q r o (found, s)).1
        (a + (if field_or false (accepts q) o then field_or 0 (λ p. p.alloc_size) o else 0))
        (f + (if field_or false (accepts q) o then field_or 0 freed_part o else 0))
        (m + (if field_or false (accepts q) o then field_or 0 live_part o else 0))

  step-sizes :
      (r : ℕ) (o : Option MemoryOperation) (found : List ℕ) (s : MemoryStats) (a f m : ℕ)
      → field_or 0 (λ p. p.alloc_size) o < 2 ^ 64
      → ShowsSizes s a f m
      → StepShows r o found s a f m
  unfolding search_step
  step-sizes r none found s a f m fits e = (omega arith, omega arith, omega arith)
  step-sizes r (some o) found s a f m fits e = tested (accepts q o)
    where
      tested :
          (b : Bool)
          → let acc : List ℕ × MemoryStats =
              if b then (found ++ r ∷ [], count_found o s) else (found, s) in
            ShowsSizes acc.1
              (a + (if b then o.alloc_size else 0))
              (f + (if b then freed_part o else 0))
              (m + (if b then live_part o else 0))
      tested true = count_found-sizes o s a f m fits e
      tested false = (omega arith, omega arith, omega arith)

  sum_of-cons :
      (part : MemoryOperation → ℕ) (r : ℕ) (rs : List ℕ)
      → sum_of part (r ∷ rs)
        ≡ (if holds objects (accepts q) r then read_at 0 part objects r else 0) + sum_of part rs
  unfolding sum_over
  sum_of-cons part r rs = tested (holds objects (accepts q) r)
    where
      tested :
          (b : Bool)
          → sum_over
              (read_at 0 part objects)
              (if b then r ∷ accepted q objects rs else accepted q objects rs)
            ≡ (if b then read_at 0 part objects r else 0) + sum_of part rs
      tested true = refl
      tested false = omega arith

  search_loop-sizes :
      (rs found : List ℕ) (s : MemoryStats) (a f m : ℕ)
      → SizesFit objects
      → ShowsSizes s a f m
      → ShowsSizes
          (search_loop q objects rs (found, s)).1
          (a + sum_of (λ o. o.alloc_size) rs)
          (f + sum_of freed_part rs)
          (m + sum_of live_part rs)
  unfolding search_loop sum_over
  search_loop-sizes [] found s a f m fits e = (omega arith, omega arith, omega arith)
  search_loop-sizes (r ∷ rs) found s a f m fits e =
      let o : Option MemoryOperation = get_elem? objects r in
      let (found', s') = search_step q r o (found, s) in
      let (ea, ef, em) =
        search_loop-sizes rs found' s' _ _ _ fits
          (step-sizes r o found s a f m (size_at-lt objects r fits) e) in
      (
        ea ∙ omega (arith, sum_of-cons (λ p. p.alloc_size) r rs),
        ef ∙ omega (arith, sum_of-cons freed_part r rs),
        em ∙ omega (arith, sum_of-cons live_part r rs),
      )

-- Where every operation has a size of 64 bits, the sizes that a search shows are those of the
-- operations that it shows, modulo 2 ^ 64: all that was allocated, what of it was freed, and what
-- remains.
pub on_filter_button_clicked-sizes :
    (q : Query) (c : Controller)
    → SizesFit c.operations.objects
    → let objects = c.operations.objects in
      let c' = on_filter_button_clicked q c in
      let sum : (MemoryOperation → ℕ) → ℕ =
        λ part. sum_over (read_at 0 part objects) c'.list_filter_memory_operation in
      ShowsSizes c'.search_stats (sum (λ o. o.alloc_size)) (sum freed_part) (sum live_part)
unfolding on_filter_button_clicked reset
on_filter_button_clicked-sizes q c fits =
    let objects = c.operations.objects in
    let list = c.operations.list_memory_operation in
    let (a, f, m) =
      search_loop-sizes q objects list [] (reset c.search_stats) 0 0 0 fits
        (omega arith, omega arith, omega arith) in
    let same : (part : MemoryOperation → ℕ)
        → (0 + sum_of q objects part list) % 2 ^ 64 ≡ sum_of q objects part list % 2 ^ 64 =
      λ part. ap (λ x. x % 2 ^ 64) (zero-add (sum_of q objects part list)) in
    rw (search_loop-list q objects list [] (reset c.search_stats))
      (a ∙ same (λ o. o.alloc_size), f ∙ same freed_part, m ∙ same live_part)
