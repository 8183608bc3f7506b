-- ===== src/Controller/OperationStore/Consistent.antt =====
-- The lists of `addMemoryOperation` in QApplicationWindowController.cpp belong together: the list of
-- the operations not freed is that part of the list of all operations.
use aleakd.Base.{
  ℕ, suc, ◌≤◌, ◌<◌, ◌≡◌, refl, sym, ap, ◌∙◌, Bool, true, false, not, ◌&&◌, Option, none, some, List,
  [], ◌∷◌, ◌++◌, ◌==◌, if◌then◌else◌, length, length-append, get_elem?, arith, Bool-cases, inl, inr,
}
use aleakd.Model.Records.{MemoryOperation, Backtrace}
use aleakd.Model.Objects.{
  field_or, read_at-modify, read_at-append, read_at-append_end, holds-modify_fails, holds, modify,
  length-modify,
}
use aleakd.Model.Operations.{
  has_alloc_operation, take_by_ptr_not_freed, take_last, is_ptr_not_freed,
}
use aleakd.Model.Operations.Search.{
  take_last-keep_pointer, taken_pointer, keep, Rising, Rising-append, keep-append, keep-agree,
  take_last-keep,
}
use aleakd.Controller.OperationStore.{
  mark_traced, mark_taken, OperationStore, take_freed, append_operation, store_operation,
  attach_backtrace, set_freed,
}

abbrev pub is_live : MemoryOperation → Bool
is_live o = not o.freed && has_alloc_operation o.msg_code

abbrev pub live : List MemoryOperation → ℕ → Bool
live objects = holds objects is_live

pub record IsConsistent (st : OperationStore) : Type 0 where
  pub rising : Rising 0 (length st.objects) st.list_memory_operation
  pub non_freed :
      st.list_memory_operation_non_freed ≡ keep (live st.objects) st.list_memory_operation

-- The new object, seen from the pointer that it gets.
live-new :
    (objects : List MemoryOperation) (o : MemoryOperation)
    → o.freed ≡ false
    → live (objects ++ o ∷ []) (length objects) ≡ has_alloc_operation o.msg_code
live-new objects o fresh = read_at-append_end false is_live objects o ∙ ground arith

append_operation-IsConsistent :
    (o : MemoryOperation) (st : OperationStore)
    → o.freed ≡ false
    → IsConsistent st
    → IsConsistent (append_operation o st)
unfolding append_operation
append_operation-IsConsistent o st fresh v = record { rising = rising'; non_freed = non_freed' }
  where
    open st use {objects, list_memory_operation as list, list_memory_operation_non_freed as rest}

    rising' : Rising 0 (length (objects ++ o ∷ [])) (list ++ length objects ∷ [])
    rising' =
        let size : length (objects ++ o ∷ []) ≡ suc (length objects) =
          omega (arith, length-append objects (o ∷ [])) in
        rw size (Rising-append 0 (length objects) list (omega arith) v.rising)

    same : keep (live (objects ++ o ∷ [])) list ≡ keep (live objects) list
    same =
        keep-agree (live (objects ++ o ∷ [])) (live objects) 0 (length objects) list
          (λ r _ h. read_at-append false is_live objects o r h) v.rising

    non_freed' :
        (if has_alloc_operation o.msg_code then rest ++ length objects ∷ [] else rest)
        ≡ keep (live (objects ++ o ∷ [])) (list ++ length objects ∷ [])
    non_freed' =
        rw
          (
            keep-append (live (objects ++ o ∷ [])) list (length objects),
            live-new objects o fresh,
            same,
          )
          (rw v.non_freed refl)

mark_taken-IsConsistent :
    (p : ℕ → Bool) (st : OperationStore) (found : Option (ℕ × List ℕ))
    → take_last p st.list_memory_operation_non_freed ≡ found
    → IsConsistent st
    → IsConsistent (mark_taken st found).1
unfolding mark_taken
mark_taken-IsConsistent p st none e v = v
mark_taken-IsConsistent p st (some (r, rest)) e v = record {
  rising = rw (length-modify set_freed r objects) v.rising;
  non_freed = taken.2 ∙ marked;
}
  where
    open st use {objects, list_memory_operation as list}

    taken :
        (0 ≤ r) × (r < length objects) × (rest ≡ keep (λ k. live objects k && not (k == r)) list)
    taken =
        take_last-keep p (live objects) 0 (length objects) list v.rising
          (ap (take_last p) (sym v.non_freed) ∙ e)

    marked :
        keep (λ k. live objects k && not (k == r)) list
        ≡ keep (live (modify set_freed r objects)) list
    marked =
        keep-agree _ _ 0 (length objects) list
          (λ k _ _. sym (holds-modify_fails set_freed is_live r k objects (λ o. refl))) v.rising

pub take_freed-IsConsistent :
    (ptr : ℕ) (st : OperationStore) → IsConsistent st → IsConsistent (take_freed ptr st).1
unfolding take_freed take_by_ptr_not_freed
take_freed-IsConsistent ptr st v = elim (Bool-cases (ptr == 0)) [
  | inl no_pointer ↦ rw no_pointer v
  | inr pointer ↦ rw pointer (mark_taken-IsConsistent _ st _ refl v)
]

-- A received operation that is not marked as freed keeps lists that belong together so: the list
-- of those not freed is that part of the list of all operations, in the same order, after the one
-- it frees has left it and it has entered itself if its code counts as an allocation.
pub store_operation-IsConsistent :
    (o : MemoryOperation) (st : OperationStore)
    → o.freed ≡ false
    → IsConsistent st
    → IsConsistent (store_operation o st).1
unfolding store_operation
store_operation-IsConsistent o st fresh v =
    append_operation-IsConsistent o (take_freed o.free_ptr st).1 fresh
      (take_freed-IsConsistent o.free_ptr st v)

mark_traced-IsConsistent :
    (b : Backtrace) (st : OperationStore) (found : Option (ℕ × List ℕ))
    → IsConsistent st
    → IsConsistent (mark_traced b st found)
unfolding mark_traced
mark_traced-IsConsistent b st none v = v
mark_traced-IsConsistent b st (some (r, rest)) v = record {
  rising = rw (length-modify (λ o. record o { back_trace = some b }) r objects) v.rising;
  non_freed =
      v.non_freed
      ∙ keep-agree _ _ 0 (length objects) list
          (λ k _ _. sym (
            read_at-modify (λ o. record o { back_trace = some b }) false is_live r k objects
              (λ o. refl)))
          v.rising;
}
  where
    open st use {objects, list_memory_operation as list}

-- Attaching a backtrace keeps the lists together.
pub attach_backtrace-IsConsistent :
    (b : Backtrace) (st : OperationStore) → IsConsistent st → IsConsistent (attach_backtrace b st)
unfolding attach_backtrace
attach_backtrace-IsConsistent b st v = mark_traced-IsConsistent b st _ v

-- Where the lists belong together and the operations not freed that carry the pointer count as
-- allocations, the search in the list of the operations not freed finds what a search through the
-- list of all operations would find.
pub take_by_ptr_not_freed-list :
    (ptr : ℕ) (st : OperationStore)
    → IsConsistent st
    → ((r : ℕ)
        → holds st.objects (is_ptr_not_freed ptr) r ≡ true
        → holds st.objects (λ o. has_alloc_operation o.msg_code) r ≡ true)
    → taken_pointer (take_by_ptr_not_freed st.objects ptr st.list_memory_operation_non_freed)
      ≡ taken_pointer (take_by_ptr_not_freed st.objects ptr st.list_memory_operation)
unfolding take_by_ptr_not_freed
take_by_ptr_not_freed-list ptr st v carry =
    ap (λ l. taken_pointer (take_last (holds st.objects (is_ptr_not_freed ptr)) l)) v.non_freed
    ∙ take_last-keep_pointer (holds st.objects (is_ptr_not_freed ptr)) (live st.objects)
        st.list_memory_operation (λ r h. is_live_of_ptr (get_elem? st.objects r) h (carry r h))
  where
    is_live_of_ptr :
        (o : Option MemoryOperation)
        → field_or false (is_ptr_not_freed ptr) o ≡ true
        → field_or false (λ a. has_alloc_operation a.msg_code) o ≡ true
        → field_or false is_live o ≡ true
    is_live_of_ptr none h c = h
    is_live_of_ptr (some a) h c = ground arith
