-- ===== src/Controller/ThreadStore.antt =====
-- The threads of a capture in QApplicationWindowController.cpp: `getThreadInfos`,
-- `getThreadInfosForMsgNum`, `updateThreadInfosAddAlloc`, `updateThreadInfosAddFree` and the part of
-- `updateThreadInfos` behind the message count.
pub mod Alive
use aleakd.Model.Objects.{modify}
use aleakd.Base.{
  ℕ, Bool, true, false, Option, none, some, List, [], ◌∷◌, ◌++◌, ◌==◌, ltb, if◌then◌else◌, length,
  add64, sub64, add32, sub32,
}
use aleakd.Shared.Codes.{MsgCode}
use aleakd.Model.Records.{TimeVal, ThreadInfos, ThreadOperation, new_thread_infos}
use aleakd.Model.Threads.{get_by_id, get_by_id_and_msg_num, remove_by_id}

-- `objects` holds the `ThreadInfos` that were ever made; the two lists point into it.
pub record ThreadStore : Type 0 where
  pub objects : List ThreadInfos
  pub list_thread_infos : List ℕ
  pub list_thread_infos_alive : List ℕ

abbrev pub update_thread : (ThreadInfos → ThreadInfos) → ℕ → ThreadStore → ThreadStore
update_thread f r st = record st { objects = modify f r st.objects }

-- The bytes of "main".
abbrev pub main_name : List ℕ
main_name = b'm' ∷ b'a' ∷ b'i' ∷ b'n' ∷ []

abbrev is_empty {ℓ} : {A : Type ℓ} → List A → Bool
is_empty [] = true
is_empty (x ∷ xs) = false

-- The second half of `getThreadInfos`: a new entry in both lists.
unfoldable pub new_thread : ℕ → TimeVal → ThreadStore → ℕ × ThreadStore
new_thread id tv st =
    let r = length st.objects in
    let t : ThreadInfos = record new_thread_infos {
      thread_id = id;
      tv_creation = tv;
      thread_name = if is_empty st.list_thread_infos then main_name else [];
    } in
    (
      r,
      record {
        objects = st.objects ++ t ∷ [];
        list_thread_infos = st.list_thread_infos ++ r ∷ [];
        list_thread_infos_alive = st.list_thread_infos_alive ++ r ∷ [];
      },
    )

-- A recycled thread: its entry is ended and no longer alive.
unfoldable pub terminate : ℕ → ℕ → TimeVal → ThreadStore → ThreadStore
terminate r id tv st =
    let st' = update_thread (λ t. record t { is_terminated = true; tv_termination = tv }) r st in
    record st' { list_thread_infos_alive = remove_by_id st'.objects id st'.list_thread_infos_alive }

get_or_new : Option ℕ → ℕ → Bool → TimeVal → ThreadStore → ℕ × ThreadStore
get_or_new none id creation tv st = new_thread id tv st
get_or_new (some r) id creation tv st =
    if creation then new_thread id tv (terminate r id tv st) else (r, st)

-- `getThreadInfos`
unfoldable pub get_thread_infos : ℕ → Bool → TimeVal → ThreadStore → ℕ × ThreadStore
unfolding get_or_new
get_thread_infos id creation tv st =
    get_or_new (get_by_id st.objects id st.list_thread_infos_alive) id creation tv st

-- `getThreadInfosForMsgNum`
unfoldable pub get_thread_infos_for_msg_num : ℕ → ℕ → ThreadStore → Option ℕ
get_thread_infos_for_msg_num id num st =
    elim (get_by_id_and_msg_num st.objects id num st.list_thread_infos_alive) [
      | some r ↦ some r
      | none ↦ get_by_id_and_msg_num st.objects id num st.list_thread_infos
    ]

-- What an allocation does to the entry of its thread.
unfoldable pub add_alloc : ℕ → ℕ → ThreadInfos → ThreadInfos
add_alloc num size t =
    let current = add64 t.current_size size in
    record t {
      creation_msg_num = if t.creation_msg_num == 0 then num else t.creation_msg_num;
      last_alloc_msg_num = num;
      current_size = current;
      current_alloc_count = add32 t.current_alloc_count 1;
      total_alloc_count = add32 t.total_alloc_count 1;
      peak_size = if ltb t.peak_size current then current else t.peak_size;
    }

-- `updateThreadInfosAddAlloc`
unfoldable pub update_thread_infos_add_alloc : ℕ → ℕ → ℕ → TimeVal → ThreadStore → ThreadStore
update_thread_infos_add_alloc id num size tv st =
    let (r, st') = get_thread_infos id false tv st in update_thread (add_alloc num size) r st'

-- What a free does to the entry of the thread that allocated.
unfoldable pub add_free : ℕ → ThreadInfos → ThreadInfos
add_free size t = record t {
  current_size = sub64 t.current_size size;
  current_alloc_count = sub32 t.current_alloc_count 1;
}

-- `updateThreadInfosAddFree`
unfoldable pub update_thread_infos_add_free : ℕ → ℕ → ℕ → TimeVal → ThreadStore → ThreadStore
update_thread_infos_add_free id num size tv st = elim (get_thread_infos_for_msg_num id num st) [
  | some r ↦ update_thread (add_free size) r st
  | none ↦ let (r, st') = get_thread_infos id false tv st in update_thread (add_free size) r st'
]

-- What a thread operation does to the entry that `getThreadInfos` gave.
unfoldable pub apply_thread_operation : ThreadOperation → MsgCode → ThreadInfos → ThreadInfos
apply_thread_operation o MsgCode.pthread_create t = record t {
  creation_msg_num = o.msg_num;
  last_alloc_msg_num = o.msg_num;
}
apply_thread_operation o MsgCode.pthread_set_name t = record t { thread_name = o.thread_name }
apply_thread_operation o _ t = t

abbrev pub is_creation : MsgCode → Bool
is_creation MsgCode.pthread_create = true
is_creation _ = false

-- `updateThreadInfos`, behind the message count
unfoldable pub update_thread_infos : ThreadOperation → ThreadStore → ThreadStore
update_thread_infos o st =
    let (r, st') = get_thread_infos o.thread_id (is_creation o.msg_code) o.tv_operation st in
    update_thread (apply_thread_operation o o.msg_code) r st'
