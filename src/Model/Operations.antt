-- ===== src/Model/Operations.antt =====
-- server/Model/MemoryOperation.cpp: the tests on an operation, and the searches of
-- `MemoryOperationList`.
pub mod Search
use aleakd.Model.Objects.{holds}
use aleakd.Base.{
  ℕ, Bool, true, false, not, ◌&&◌, Option, none, some, List, [], ◌∷◌, ◌==◌, if◌then◌else◌,
  get_elem?,
}
use aleakd.Shared.Codes.{MsgCode}
use aleakd.Model.Records.{MemoryOperation}

-- `MemoryOperation::hasAllocOperation`, on `m_iMsgCode`
unfoldable pub has_alloc_operation : MsgCode → Bool
has_alloc_operation MsgCode.malloc = true
has_alloc_operation MsgCode.calloc = true
has_alloc_operation MsgCode.realloc = true
has_alloc_operation MsgCode.free = true
has_alloc_operation MsgCode.posix_memalign = true
has_alloc_operation MsgCode.aligned_alloc = true
has_alloc_operation MsgCode.memalign = true
has_alloc_operation MsgCode.valloc = true
has_alloc_operation MsgCode.pvalloc = true
has_alloc_operation _ = false

-- `MemoryOperation::hasFreeOperation`, on `m_iMsgCode`
unfoldable pub has_free_operation : MsgCode → Bool
has_free_operation MsgCode.realloc = true
has_free_operation MsgCode.free = true
has_free_operation _ = false

-- The first pointer of a list, from its front, whose object passes the test.
unfoldable pub find_first : (ℕ → Bool) → List ℕ → Option ℕ
find_first p [] = none
find_first p (r ∷ rs) = if p r then some r else find_first p rs

-- The last pointer whose object passes the test, as an iterator that runs from `end()` to `begin()`
-- meets it, and the list without it.
unfoldable pub take_last : (ℕ → Bool) → List ℕ → Option (ℕ × List ℕ)
take_last p [] = none
take_last p (r ∷ rs) = elim (take_last p rs) [
  | some (q, qs) ↦ some (q, r ∷ qs)
  | none ↦ if p r then some (r, rs) else none
]

abbrev pub is_ptr_not_freed : ℕ → MemoryOperation → Bool
is_ptr_not_freed ptr o = (o.alloc_ptr == ptr) && not o.freed

-- `MemoryOperationList::getPtrNotFreed`
pub get_ptr_not_freed : List MemoryOperation → ℕ → List ℕ → Option ℕ
unfolding find_first
get_ptr_not_freed objects ptr = find_first (holds objects (is_ptr_not_freed ptr))

-- `MemoryOperationList::takeByPtrNotFreed`
unfoldable pub take_by_ptr_not_freed : List MemoryOperation → ℕ → List ℕ → Option (ℕ × List ℕ)
unfolding take_last
take_by_ptr_not_freed objects ptr = take_last (holds objects (is_ptr_not_freed ptr))

-- `MemoryOperationList::takeByMsgNum`
unfoldable pub take_by_msg_num : List MemoryOperation → ℕ → List ℕ → Option (ℕ × List ℕ)
unfolding take_last
take_by_msg_num objects num = take_last (holds objects (λ o. o.msg_num == num))
