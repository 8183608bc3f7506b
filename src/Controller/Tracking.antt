-- ===== src/Controller/Tracking.antt =====
-- The threads of QApplicationWindowController.cpp, over a whole capture.
use aleakd.Base.{
  ℕ, ◌≡◌, ◌==◌, refl, Bool, true, false, Option, none, some, List, [], ◌∷◌, if◌then◌else◌, arith,
}
use aleakd.Shared.Codes.{MsgCode}
use aleakd.Model.Records.{TimeVal, MemoryOperation, ThreadInfos, ThreadOperation}
use aleakd.Controller.ThreadStore.{
  ThreadStore, update_thread, get_thread_infos, get_thread_infos_for_msg_num, add_alloc, add_free,
  update_thread_infos_add_alloc, update_thread_infos_add_free, apply_thread_operation,
  update_thread_infos, is_creation,
}
use aleakd.Controller.ThreadStore.Alive.{
  IsTracked, update_thread-IsTracked, get_thread_infos-IsTracked,
}
use aleakd.Model.Threads.Count.{count_if}
use aleakd.Controller.State.{
  Controller, new_controller, clear_data, update_threads, on_new_connection, add_memory_operation,
  on_thread_operation, add_backtrace, add_symbol_infos,
}
use aleakd.Controller.Events.{Event, connected, memory, thread, traced, symbols, handle, run}

apply-keeps_id :
    (o : ThreadOperation) (c : MsgCode) (t : ThreadInfos)
    → (apply_thread_operation o c t).thread_id ≡ t.thread_id
unfolding apply_thread_operation
apply-keeps_id o MsgCode.pthread_create t = refl
apply-keeps_id o MsgCode.pthread_set_name t = refl
apply-keeps_id o _ t = refl

-- Each of the three updates.
update_thread_infos-IsTracked :
    (o : ThreadOperation) (st : ThreadStore) → IsTracked st → IsTracked (update_thread_infos o st)
unfolding update_thread_infos
update_thread_infos-IsTracked o st v =
    update_thread-IsTracked (apply_thread_operation o o.msg_code) _ _ (apply-keeps_id o o.msg_code)
      (get_thread_infos-IsTracked o.thread_id (is_creation o.msg_code) o.tv_operation st v)

add_alloc-IsTracked :
    (id num size : ℕ) (tv : TimeVal) (st : ThreadStore)
    → IsTracked st
    → IsTracked (update_thread_infos_add_alloc id num size tv st)
unfolding update_thread_infos_add_alloc add_alloc
add_alloc-IsTracked id num size tv st v =
    update_thread-IsTracked (add_alloc num size) _ _ (λ t. refl)
      (get_thread_infos-IsTracked id false tv st v)

add_free-IsTracked :
    (id num size : ℕ) (tv : TimeVal) (st : ThreadStore)
    → IsTracked st
    → IsTracked (update_thread_infos_add_free id num size tv st)
unfolding update_thread_infos_add_free add_free
add_free-IsTracked id num size tv st v = found (get_thread_infos_for_msg_num id num st)
  where
    found :
        (o : Option ℕ)
        → IsTracked (elim o [
          | some r ↦ update_thread (add_free size) r st
          | none ↦
              let (r, st') = get_thread_infos id false tv st in update_thread (add_free size) r st'
        ])
    found (some r) = update_thread-IsTracked (add_free size) r st (λ t. refl) v
    found none =
        update_thread-IsTracked (add_free size) _ _ (λ t. refl)
          (get_thread_infos-IsTracked id false tv st v)

update_threads-IsTracked :
    (o : MemoryOperation) (freed : Option MemoryOperation) (st : ThreadStore)
    → IsTracked st
    → IsTracked (update_threads o freed st)
unfolding update_threads
update_threads-IsTracked o none st v = allocated (o.alloc_ptr == 0) st v
  where
    allocated :
        (b : Bool) (st' : ThreadStore)
        → IsTracked st'
        → IsTracked (
            if b
            then st'
            else update_thread_infos_add_alloc o.caller_thread_id o.msg_num o.alloc_size
                o.tv_operation st')
    allocated true st' v' = v'
    allocated false st' v' =
        add_alloc-IsTracked o.caller_thread_id o.msg_num o.alloc_size o.tv_operation st' v'
update_threads-IsTracked o (some f) st v =
    allocated (o.alloc_ptr == 0) _
      (add_free-IsTracked f.caller_thread_id f.msg_num f.alloc_size o.tv_operation st v)
  where
    allocated :
        (b : Bool) (st' : ThreadStore)
        → IsTracked st'
        → IsTracked (
            if b
            then st'
            else update_thread_infos_add_alloc o.caller_thread_id o.msg_num o.alloc_size
                o.tv_operation st')
    allocated true st' v' = v'
    allocated false st' v' =
        add_alloc-IsTracked o.caller_thread_id o.msg_num o.alloc_size o.tv_operation st' v'

handle-IsTracked :
    (e : Event) (c : Controller) → IsTracked c.threads → IsTracked (handle e c).threads
unfolding handle on_new_connection clear_data add_memory_operation on_thread_operation add_backtrace
    add_symbol_infos
handle-IsTracked connected c v = record { in_range = v.in_range; unique = v.unique }
handle-IsTracked (memory o) c v = update_threads-IsTracked o _ c.threads v
handle-IsTracked (thread o) c v = update_thread_infos-IsTracked o c.threads v
handle-IsTracked (traced b) c v = v
handle-IsTracked (symbols x) c v = v

run-IsTracked :
    (es : List Event) (c : Controller) → IsTracked c.threads → IsTracked (run es c).threads
unfolding run
run-IsTracked [] c v = v
run-IsTracked (e ∷ es) c v = run-IsTracked es (handle e c) (handle-IsTracked e c v)

new_controller-IsTracked : IsTracked new_controller.threads
unfolding count_if
new_controller-IsTracked = record { in_range = tt; unique = λ id. omega arith }

-- After any sequence of calls of the receiver, new connections included, no two entries in the list of
-- the threads alive are of the same thread id, however often ids are used again.
pub run-new_controller-IsTracked : (es : List Event) → IsTracked (run es new_controller).threads
run-new_controller-IsTracked es = run-IsTracked es new_controller new_controller-IsTracked
