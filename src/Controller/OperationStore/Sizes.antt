-- ===== src/Controller/OperationStore/Sizes.antt =====
-- The sizes of the operations not freed, under the first part of `addMemoryOperation` in
-- QApplicationWindowController.cpp.
use aleakd.Base.{
  fun_ext, ℕ, ◌+◌, ◌≡◌, refl, ap, Bool, Option, none, some, List, [], ◌∷◌, ◌++◌, ◌==◌,
  if◌then◌else◌, length, arith, Bool-cases, inl, inr,
}
use aleakd.Model.Records.{MemoryOperation}
use aleakd.Model.Objects.{
  field_or, read_at, modify, read_at-modify, read_at-append, read_at-append_end,
}
use aleakd.Model.Operations.{has_alloc_operation, take_by_ptr_not_freed, take_last}
use aleakd.Model.Operations.Search.{
  Rising, sum_over, sum_over-append, sum_over-agree, take_last-sum, keep-Rising,
}
use aleakd.Controller.OperationStore.{
  Backtrace, mark_traced, attach_backtrace, object_of, OperationStore, take_freed, mark_taken,
  append_operation, store_operation, set_freed,
}
use aleakd.Controller.OperationStore.Consistent.{take_freed-IsConsistent, IsConsistent, live}

-- The size of the object that a pointer leads to.
abbrev pub size_at : List MemoryOperation → ℕ → ℕ
size_at = read_at 0 (λ o. o.alloc_size)

-- The sizes of the operations in the list of those not freed.
unfoldable pub live_size : OperationStore → ℕ
live_size st = sum_over (size_at st.objects) st.list_memory_operation_non_freed

pub live_size_none :
    (st : OperationStore) → st.list_memory_operation_non_freed ≡ [] → live_size st ≡ 0
unfolding live_size sum_over
live_size_none st e = ap (sum_over (size_at st.objects)) e

abbrev pub freed_size : Option MemoryOperation → ℕ
freed_size = field_or 0 (λ o. o.alloc_size)

mark_taken-size :
    (p : ℕ → Bool) (st : OperationStore) (found : Option (ℕ × List ℕ))
    → take_last p st.list_memory_operation_non_freed ≡ found
    → let (freed, st') = mark_taken st found in
      live_size st' + field_or 0 (size_at st'.objects) freed ≡ live_size st
unfolding mark_taken live_size
mark_taken-size p st none e = omega arith
mark_taken-size p st (some (r, rest)) e = omega (
  arith,
  take_last-sum p (size_at (modify set_freed r st.objects)) st.list_memory_operation_non_freed e,
  ap (λ f. sum_over f st.list_memory_operation_non_freed)
      (fun_ext (λ k. read_at-modify set_freed 0 (λ o. o.alloc_size) r k st.objects (λ o. refl))),
)

take_freed-size :
    (ptr : ℕ) (st : OperationStore)
    → let (freed, st') = take_freed ptr st in
      live_size st' + field_or 0 (size_at st'.objects) freed ≡ live_size st
unfolding take_freed take_by_ptr_not_freed live_size
take_freed-size ptr st = elim (Bool-cases (ptr == 0)) [
  | inl no_pointer ↦ rw no_pointer (omega arith)
  | inr pointer ↦ rw pointer (mark_taken-size _ st _ refl)
]

append_operation-size :
    (o : MemoryOperation) (st : OperationStore)
    → IsConsistent st
    → live_size (append_operation o st)
      ≡ live_size st + (if has_alloc_operation o.msg_code then o.alloc_size else 0)
unfolding append_operation live_size
append_operation-size o st v = elim (Bool-cases (has_alloc_operation o.msg_code)) [
  | inl counts ↦ rw counts (
      omega (
        arith,
        same,
        sum_over-append (size_at (objects ++ o ∷ [])) rest (length objects),
        read_at-append_end 0 (λ a. a.alloc_size) objects o,
      ))
  | inr other ↦ rw other (omega (arith, same))
]
  where
    open st use {objects, list_memory_operation_non_freed as rest}

    below : Rising 0 (length objects) rest
    below =
        rw v.non_freed
          (keep-Rising (live objects) 0 (length objects) st.list_memory_operation v.rising)

    same : sum_over (size_at (objects ++ o ∷ [])) rest ≡ sum_over (size_at objects) rest
    same =
        sum_over-agree _ _ 0 (length objects) rest
          (λ r h. read_at-append 0 (λ a. a.alloc_size) objects o r h) below

freed_size-object_of :
    (objects : List MemoryOperation) (freed : Option ℕ)
    → freed_size (object_of objects freed) ≡ field_or 0 (size_at objects) freed
freed_size-object_of objects none = refl
freed_size-object_of objects (some r) = refl

-- Where the lists belong together, a received operation makes the sizes of the operations not
-- freed grow by its size, if it counts as an allocation, and fall by the size of the operation
-- that it frees.
pub store_operation-size :
    (o : MemoryOperation) (st : OperationStore)
    → IsConsistent st
    → let (freed, st') = store_operation o st in
      live_size st' + freed_size freed
      ≡ live_size st + (if has_alloc_operation o.msg_code then o.alloc_size else 0)
unfolding store_operation
store_operation-size o st v = omega (
  arith,
  append_operation-size o (take_freed o.free_ptr st).1 (take_freed-IsConsistent o.free_ptr st v),
  take_freed-size o.free_ptr st,
  freed_size-object_of (take_freed o.free_ptr st).1.objects (take_freed o.free_ptr st).0,
)

mark_traced-size :
    (b : Backtrace) (st : OperationStore) (found : Option (ℕ × List ℕ))
    → live_size (mark_traced b st found) ≡ live_size st
unfolding mark_traced live_size
mark_traced-size b st none = refl
mark_traced-size b st (some (r, rest)) =
    ap (λ f. sum_over f st.list_memory_operation_non_freed)
      (fun_ext (λ k.
        read_at-modify (λ o. record o { back_trace = some b }) 0 (λ o. o.alloc_size) r k st.objects
          (λ o. refl)))

-- Attaching a backtrace changes no size.
pub attach_backtrace-size :
    (b : Backtrace) (st : OperationStore) → live_size (attach_backtrace b st) ≡ live_size st
unfolding attach_backtrace
attach_backtrace-size b st = mark_traced-size b st _
