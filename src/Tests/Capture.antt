-- ===== src/Tests/Capture.antt =====
-- The controller and the models of the server, at a concrete capture: an allocation of 16 bytes, one
-- of 40 bytes, and a free of the first.
use aleakd.Model.Objects.{holds}
use aleakd.Model.Operations.{is_ptr_not_freed}
use aleakd.Model.Usage.Peaks.{value-update_all, peak_at, update_lost, update_all}
use aleakd.Base.{
  ℕ, zero, suc, ◌+◌, ◌%◌, ◌^◌, ◌≤◌, ◌<◌, ◌≡◌, if◌then◌else◌, add64, sub64, refl, true, some, List,
  [], ◌∷◌, arith,
}
use aleakd.Shared.Codes.{MsgCode}
use aleakd.Model.Records.{MemoryOperation, new_memory_operation}
use aleakd.Model.Operations.{has_alloc_operation, take_by_ptr_not_freed}
use aleakd.Model.Operations.Search.{taken_pointer}
use aleakd.Model.Stats.{new_memory_stats}
use aleakd.Model.Usage.{MemoryUsage, new_memory_usage, value, update}
use aleakd.Controller.OperationStore.{OperationStore, store_operation}
use aleakd.Controller.OperationStore.Consistent.{
  IsConsistent, store_operation-IsConsistent, take_by_ptr_not_freed-list,
}
use aleakd.Controller.OperationStore.Sizes.{live_size, freed_size, store_operation-size}
use aleakd.Controller.Counters.{count_memory_operation}
use aleakd.Model.Records.{ThreadOperation}
use aleakd.Controller.ThreadStore.Alive.{IsTracked}
use aleakd.Controller.Tracking.{run-new_controller-IsTracked}
use aleakd.Model.Records.{timer_clear}
use aleakd.Model.Objects.{read_at}
use aleakd.Model.Operations.Search.{sum_over}
use aleakd.Controller.Filter.{Query, on_filter_button_clicked}
use aleakd.Controller.Filter.Found.{
  ShowsSizes, freed_part, live_part, on_filter_button_clicked-sizes,
}
use aleakd.Global.{get_beautiful_number_string, IsGrouped, get_beautiful_number_string-IsGrouped}
use aleakd.Controller.State.{Controller, new_controller}
use aleakd.Controller.Events.{Event, run, AreReceived}
use aleakd.Controller.Accounting.{SizesOf, count_memory_operation-sizes}
use aleakd.Controller.Accounting.Invariant.{IsAccounted, run-new_controller-IsAccounted}

abbrev an_operation : MsgCode → ℕ → ℕ → ℕ → ℕ → MemoryOperation
an_operation c num size ptr old = record new_memory_operation {
  tv_operation = record { tv_sec = 100 + num; tv_usec = 5 };
  msg_num = num;
  msg_code = c;
  caller_thread_id = 140000;
  alloc_size = size;
  alloc_ptr = ptr;
  free_ptr = old;
}

abbrev first_malloc : MemoryOperation
first_malloc = an_operation MsgCode.malloc 2 16 4096 0

abbrev second_malloc : MemoryOperation
second_malloc = an_operation MsgCode.malloc 3 40 8192 0

abbrev first_free : MemoryOperation
first_free = an_operation MsgCode.free 4 0 0 4096

abbrev a_store : OperationStore
a_store = record {
  objects = first_malloc ∷ second_malloc ∷ [];
  list_memory_operation = 0 ∷ 1 ∷ [];
  list_memory_operation_non_freed = 0 ∷ 1 ∷ [];
  list_memory_operation_without_backtrace = 0 ∷ 1 ∷ [];
}

a_store-IsConsistent : IsConsistent a_store
unfolding has_alloc_operation
a_store-IsConsistent = record {
  rising = (omega arith, omega arith, (omega arith, omega arith, tt));
  non_freed = refl;
}

abbrev a_capture : List Event
a_capture =
    Event.connected
    ∷ Event.memory first_malloc
    ∷ Event.traced (record { origin_msg_num = 2; list_addr = 700 ∷ [] })
    ∷ Event.memory second_malloc
    ∷ Event.memory first_free
    ∷ []

a_capture-AreReceived : AreReceived a_capture
unfolding has_alloc_operation
a_capture-AreReceived = (
  tt,
  ((refl, refl, omega arith), (tt, ((refl, refl, omega arith), ((refl, refl, omega arith), tt)))),
)

run-new_controller-IsAccounted_example :
    let c = run a_capture new_controller in IsAccounted c.operations c.global_stats
run-new_controller-IsAccounted_example =
    run-new_controller-IsAccounted a_capture a_capture-AreReceived

store_operation-IsConsistent_example : IsConsistent (store_operation first_free a_store).1
store_operation-IsConsistent_example =
    store_operation-IsConsistent first_free a_store refl a_store-IsConsistent

store_operation-size_example :
    let (freed, st') = store_operation first_free a_store in
    live_size st' + freed_size freed
    ≡ live_size a_store + (if has_alloc_operation MsgCode.free then 0 else 0)
store_operation-size_example = store_operation-size first_free a_store a_store-IsConsistent

count_memory_operation-sizes_example :
    SizesOf
      (count_memory_operation first_free (some first_malloc) new_memory_stats)
      (add64 0 0)
      (add64 0 16)
      (sub64 (add64 0 0) 16)
count_memory_operation-sizes_example =
    count_memory_operation-sizes first_free (some first_malloc) new_memory_stats (omega arith)

none_fits : value new_memory_usage 100 < 2 ^ 31
unfolding value
none_fits = omega arith

value-update_all_example :
    value (update_all ((100, 16) ∷ (101, 9) ∷ (100, 12) ∷ []) new_memory_usage) 100
    ≡ peak_at 100 0 ((100, 16) ∷ (101, 9) ∷ (100, 12) ∷ [])
value-update_all_example =
    value-update_all ((100, 16) ∷ (101, 9) ∷ (100, 12) ∷ []) 100
      (omega arith, (omega arith, (omega arith, tt)))

abbrev a_usage : ℕ → MemoryUsage
a_usage size = record {
  first_time = 100;
  last_time = 100;
  list_size_by_timestamp = (100, size) ∷ [];
}

three_gib : 2 ^ 31 ≤ value (a_usage 3221225472) 100 % 2 ^ 32
unfolding value
three_gib = omega arith

update_lost_example : update (a_usage 3221225472) 100 3221225473 ≡ a_usage 3221225472
update_lost_example = update_lost (a_usage 3221225472) 100 3221225473 three_gib (omega arith)

a_store-carries :
    (r : ℕ)
    → holds a_store.objects (is_ptr_not_freed 4096) r ≡ true
    → holds a_store.objects (λ o. has_alloc_operation o.msg_code) r ≡ true
unfolding has_alloc_operation
a_store-carries zero h = refl
a_store-carries (suc zero) h = refl
a_store-carries (suc (suc r)) h = h

take_by_ptr_not_freed-list_example :
    taken_pointer
      (take_by_ptr_not_freed a_store.objects 4096 a_store.list_memory_operation_non_freed)
    ≡ taken_pointer (take_by_ptr_not_freed a_store.objects 4096 a_store.list_memory_operation)
take_by_ptr_not_freed-list_example =
    take_by_ptr_not_freed-list 4096 a_store a_store-IsConsistent a_store-carries

abbrev recycled : ThreadOperation
recycled = record {
  tv_operation = record { tv_sec = 105; tv_usec = 0 };
  msg_num = 5;
  msg_code = MsgCode.pthread_create;
  caller_thread_id = 140000;
  thread_id = 140000;
  thread_name = [];
}

run-new_controller-IsTracked_example :
    IsTracked
      (run
        (Event.thread recycled ∷ Event.connected ∷ Event.thread recycled ∷ a_capture)
        new_controller).threads
run-new_controller-IsTracked_example =
    run-new_controller-IsTracked
      (Event.thread recycled ∷ Event.connected ∷ Event.thread recycled ∷ a_capture)

abbrev a_query : Query
a_query = record {
  tv_min = record { tv_sec = 102; tv_usec = 0 };
  tv_max = timer_clear;
  thread_id = 140000;
  not_freed = true;
}

abbrev a_controller : Controller
a_controller = record new_controller { operations = a_store }

on_filter_button_clicked-sizes_example :
    let c' = on_filter_button_clicked a_query a_controller in
    let sum : (MemoryOperation → ℕ) → ℕ =
      λ part. sum_over (read_at 0 part a_store.objects) c'.list_filter_memory_operation in
    ShowsSizes c'.search_stats (sum (λ o. o.alloc_size)) (sum freed_part) (sum live_part)
on_filter_button_clicked-sizes_example =
    on_filter_button_clicked-sizes a_query a_controller (omega arith, (omega arith, tt))

abbrev a_number : List ℕ
a_number = 49 ∷ 50 ∷ 51 ∷ 52 ∷ []

grouped : get_beautiful_number_string a_number ≡ 49 ∷ 32 ∷ 50 ∷ 51 ∷ 52 ∷ []
unfolding get_beautiful_number_string
grouped = refl

get_beautiful_number_string-IsGrouped_example :
    IsGrouped a_number (get_beautiful_number_string a_number)
get_beautiful_number_string-IsGrouped_example = get_beautiful_number_string-IsGrouped a_number
