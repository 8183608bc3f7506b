-- ===== src/Controller/OperationStore.antt =====
-- The memory operations of a capture in QApplicationWindowController.cpp: the first part of
-- `addMemoryOperation`, and `addBacktrace`.
pub mod Consistent
pub mod Sizes
use aleakd.Base.{
  ℕ, true, Option, none, some, List, [], ◌∷◌, ◌++◌, ◌==◌, if◌then◌else◌, length, get_elem?,
}
use aleakd.Model.Records.{MemoryOperation, Backtrace}
use aleakd.Model.Operations.{has_alloc_operation, take_by_ptr_not_freed, take_by_msg_num}
use aleakd.Model.Objects.{modify}

-- `objects` holds the `MemoryOperation`s that were ever received; the three lists point into it.
pub record OperationStore : Type 0 where
  pub objects : List MemoryOperation
  pub list_memory_operation : List ℕ
  pub list_memory_operation_non_freed : List ℕ
  pub list_memory_operation_without_backtrace : List ℕ

abbrev pub set_freed : MemoryOperation → MemoryOperation
set_freed o = record o { freed = true }

-- What `addMemoryOperation` does with the result of `takeByPtrNotFreed`.
unfoldable pub mark_taken : OperationStore → Option (ℕ × List ℕ) → Option ℕ × OperationStore
mark_taken st none = (none, st)
mark_taken st (some (r, rest)) = (
  some r,
  record st { objects = modify set_freed r st.objects; list_memory_operation_non_freed = rest },
)

-- The operation that a free or a realloc ends is taken from the list of those not freed, and
-- marked.
unfoldable pub take_freed : ℕ → OperationStore → Option ℕ × OperationStore
take_freed ptr st =
    if ptr == 0
    then (none, st)
    else mark_taken st (take_by_ptr_not_freed st.objects ptr st.list_memory_operation_non_freed)

-- The received operation becomes an object and goes to the end of the lists.
unfoldable pub append_operation : MemoryOperation → OperationStore → OperationStore
append_operation o st =
    let r = length st.objects in
    record {
      objects = st.objects ++ o ∷ [];
      list_memory_operation = st.list_memory_operation ++ r ∷ [];
      list_memory_operation_non_freed =
          if has_alloc_operation o.msg_code
          then st.list_memory_operation_non_freed ++ r ∷ []
          else st.list_memory_operation_non_freed;
      list_memory_operation_without_backtrace =
          st.list_memory_operation_without_backtrace ++ r ∷ [];
    }

-- The object behind a pointer that may be null.
abbrev pub object_of : List MemoryOperation → Option ℕ → Option MemoryOperation
object_of objects none = none
object_of objects (some r) = get_elem? objects r

-- The first part of `addMemoryOperation`, up to the statistics, with `pMemoryOperationFreed`.
unfoldable pub store_operation :
    MemoryOperation → OperationStore → Option MemoryOperation × OperationStore
store_operation o st =
    let (freed, st') = take_freed o.free_ptr st in
    (object_of st'.objects freed, append_operation o st')

unfoldable pub mark_traced : Backtrace → OperationStore → Option (ℕ × List ℕ) → OperationStore
mark_traced b st none = st
mark_traced b st (some (r, rest)) = record st {
  objects = modify (λ o. record o { back_trace = some b }) r st.objects;
  list_memory_operation_without_backtrace = rest;
}

-- `addBacktrace`, on the lists
unfoldable pub attach_backtrace : Backtrace → OperationStore → OperationStore
attach_backtrace b st =
    mark_traced b st
      (take_by_msg_num st.objects b.origin_msg_num st.list_memory_operation_without_backtrace)
