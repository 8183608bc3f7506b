-- ===== src/Controller/Accounting.antt =====
-- The sizes that `addMemoryOperation` of QApplicationWindowController.cpp keeps are those of the
-- operations in its lists.
pub mod Invariant
use aleakd.Base.{
  ◌∙◌, sub64, add64, ℕ, zero, suc, ◌^◌, ◌<◌, ◌≡◌, refl, Option, none, some, List, [], ◌∷◌, ◌++◌,
  ◌==◌, arith, Bool-cases, inl, inr,
}
use aleakd.Shared.Codes.{MsgCode}
use aleakd.Model.Records.{MemoryOperation, Backtrace}
use aleakd.Model.Objects.{modify}
use aleakd.Model.Stats.{MemoryStats}
use aleakd.Controller.OperationStore.{
  attach_backtrace, OperationStore, take_freed, mark_taken, append_operation, store_operation,
  set_freed, object_of, mark_traced,
}
use aleakd.Controller.OperationStore.Sizes.{freed_size, size_at}
use aleakd.Controller.Counters.{
  count_free_size, count_arrival, count_alloc_size, count_freed, count_usage, count_remaining,
  count_memory_operation, count_operation,
}

-- Every object has a size of 64 bits.
abbrev pub SizesFit : List MemoryOperation → Type 0
SizesFit [] = Unit {0}
SizesFit (o ∷ os) = (o.alloc_size < 2 ^ 64) × SizesFit os

pub SizesFit-append :
    (os : List MemoryOperation) (o : MemoryOperation)
    → SizesFit os
    → o.alloc_size < 2 ^ 64
    → SizesFit (os ++ o ∷ [])
SizesFit-append [] o f h = (h, tt)
SizesFit-append (p ∷ os) o f h = (f.0, SizesFit-append os o f.1 h)

pub SizesFit-modify :
    (f : MemoryOperation → MemoryOperation) (r : ℕ) (os : List MemoryOperation)
    → ((o : MemoryOperation) → (f o).alloc_size ≡ o.alloc_size)
    → SizesFit os
    → SizesFit (modify f r os)
SizesFit-modify f r [] same h = tt
SizesFit-modify f zero (o ∷ os) same h = (rw (same o) h.0, h.1)
SizesFit-modify f (suc r) (o ∷ os) same h = (h.0, SizesFit-modify f r os same h.1)

pub size_at-lt : (os : List MemoryOperation) (r : ℕ) → SizesFit os → size_at os r < 2 ^ 64
size_at-lt [] r f = omega arith
size_at-lt (o ∷ os) zero f = f.0
size_at-lt (o ∷ os) (suc r) f = size_at-lt os r f.1

pub mark_taken-SizesFit :
    (st : OperationStore) (found : Option (ℕ × List ℕ))
    → SizesFit st.objects
    → SizesFit (mark_taken st found).1.objects
unfolding mark_taken
mark_taken-SizesFit st none f = f
mark_taken-SizesFit st (some (r, rest)) f = SizesFit-modify set_freed r st.objects (λ o. refl) f

pub take_freed-SizesFit :
    (ptr : ℕ) (st : OperationStore) → SizesFit st.objects → SizesFit (take_freed ptr st).1.objects
unfolding take_freed
take_freed-SizesFit ptr st f = elim (Bool-cases (ptr == 0)) [
  | inl e ↦ rw e f
  | inr e ↦ rw e (mark_taken-SizesFit st _ f)
]

pub object_of-lt :
    (os : List MemoryOperation) (freed : Option ℕ)
    → SizesFit os
    → freed_size (object_of os freed) < 2 ^ 64
object_of-lt os none f = omega arith
object_of-lt os (some r) f = size_at-lt os r f

pub store_operation-fits :
    (o : MemoryOperation) (st : OperationStore)
    → o.alloc_size < 2 ^ 64
    → SizesFit st.objects
    → let (freed, st') = store_operation o st in SizesFit st'.objects × (freed_size freed < 2 ^ 64)
unfolding store_operation append_operation
store_operation-fits o st h f =
    let taken = take_freed-SizesFit o.free_ptr st f in
    (
      SizesFit-append (take_freed o.free_ptr st).1.objects o taken h,
      object_of-lt (take_freed o.free_ptr st).1.objects (take_freed o.free_ptr st).0 taken,
    )

pub mark_traced-SizesFit :
    (b : Backtrace) (st : OperationStore) (found : Option (ℕ × List ℕ))
    → SizesFit st.objects
    → SizesFit (mark_traced b st found).objects
unfolding mark_traced
mark_traced-SizesFit b st none f = f
mark_traced-SizesFit b st (some (r, rest)) f =
    SizesFit-modify (λ o. record o { back_trace = some b }) r st.objects (λ o. refl) f

pub attach_backtrace-SizesFit :
    (b : Backtrace) (st : OperationStore)
    → SizesFit st.objects
    → SizesFit (attach_backtrace b st).objects
unfolding attach_backtrace
attach_backtrace-SizesFit b st f = mark_traced-SizesFit b st _ f

-- The three sizes of the statistics, as the counting leaves them.
abbrev pub SizesOf : MemoryStats → ℕ → ℕ → ℕ → Type 0
SizesOf s alloc free remaining =
    (s.total_alloc_size ≡ alloc) × (s.total_free_size ≡ free) × (s.total_remaining_size ≡ remaining)

pub count_operation-sizes :
    (c : MsgCode) (ptr : ℕ) (s : MemoryStats)
    → SizesOf (count_operation c ptr s) s.total_alloc_size s.total_free_size s.total_remaining_size
unfolding count_operation
count_operation-sizes MsgCode.malloc ptr s = (refl, refl, refl)
count_operation-sizes MsgCode.realloc ptr s = ground arith
count_operation-sizes _ ptr s = (refl, refl, refl)

-- As long as the freed size is below 2 ^ 64, the counting of an operation adds its size to what
-- was allocated and to what remains, and moves the size of the operation that it frees from what
-- remains to what was freed, modulo 2 ^ 64.
pub count_memory_operation-sizes :
    (o : MemoryOperation) (freed : Option MemoryOperation) (s : MemoryStats)
    → s.total_free_size < 2 ^ 64
    → SizesOf
        (count_memory_operation o freed s)
        (add64 s.total_alloc_size o.alloc_size)
        (add64 s.total_free_size (freed_size freed))
        (sub64 (add64 s.total_remaining_size o.alloc_size) (freed_size freed))
unfolding count_memory_operation count_remaining count_usage count_freed count_alloc_size
    count_arrival count_free_size
count_memory_operation-sizes o none s h =
    let before =
      count_usage o.tv_operation (count_alloc_size o.alloc_size (count_arrival o.tv_operation s)) in
    let (alloc, free, remaining) = count_operation-sizes o.msg_code o.free_ptr before in
    (alloc, free ∙ omega arith, remaining ∙ omega arith)
count_memory_operation-sizes o (some f) s h = count_operation-sizes o.msg_code o.free_ptr (
    count_usage o.tv_operation (
      count_free_size f.alloc_size
        (count_alloc_size o.alloc_size (count_arrival o.tv_operation s))))
