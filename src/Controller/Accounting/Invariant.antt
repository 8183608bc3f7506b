-- ===== src/Controller/Accounting/Invariant.antt =====
-- The sizes in the statistics of QApplicationWindowController.cpp, over a whole capture.
use aleakd.Base.{refl, ◌∙◌, sub64, ◌+◌, ℕ, ◌%◌, ◌^◌, ◌<◌, ◌≡◌, List, [], ◌∷◌, add64, arith}
use aleakd.Model.Records.{MemoryOperation, Backtrace}
use aleakd.Model.Stats.{MemoryStats, reset}
use aleakd.Controller.OperationStore.{OperationStore, store_operation, attach_backtrace}
use aleakd.Controller.OperationStore.Consistent.{
  IsConsistent, store_operation-IsConsistent, attach_backtrace-IsConsistent,
}
use aleakd.Controller.OperationStore.Sizes.{
  live_size_none, attach_backtrace-size, live_size, freed_size, store_operation-size,
}
use aleakd.Controller.Counters.{count_memory_operation}
use aleakd.Controller.State.{
  add_symbol_infos, on_thread_operation, Controller, new_controller, on_new_connection,
  add_memory_operation, add_backtrace, clear_data,
}
use aleakd.Controller.Events.{
  Event, connected, memory, thread, traced, symbols, handle, run, IsReceived, AreReceived,
}
use aleakd.Controller.Accounting.{
  SizesFit, store_operation-fits, attach_backtrace-SizesFit, count_memory_operation-sizes,
}

-- The lists belong together; what remains is the size of the operations not freed, and with what was
-- freed it makes what was allocated, all modulo 2 ^ 64.
pub record IsAccounted (ops : OperationStore) (s : MemoryStats) : Type 0 where
  pub consistent : IsConsistent ops
  pub sizes : SizesFit ops.objects
  pub freed : s.total_free_size < 2 ^ 64
  pub remaining : s.total_remaining_size ≡ live_size ops % 2 ^ 64
  pub total : s.total_alloc_size ≡ add64 s.total_free_size s.total_remaining_size

remaining_step :
    (before after size freed remaining : ℕ)
    → after + freed ≡ before + size
    → freed < 2 ^ 64
    → remaining ≡ before % 2 ^ 64
    → sub64 (add64 remaining size) freed ≡ after % 2 ^ 64
remaining_step before after size freed remaining e h r = omega arith

total_step :
    (alloc free remaining size freed : ℕ)
    → freed < 2 ^ 64
    → alloc ≡ add64 free remaining
    → add64 alloc size ≡ add64 (add64 free freed) (sub64 (add64 remaining size) freed)
total_step alloc free remaining size freed h e = omega arith

stored-IsAccounted :
    (o : MemoryOperation) (ops : OperationStore) (s : MemoryStats)
    → IsReceived (memory o)
    → IsAccounted ops s
    → let (freed, ops') = store_operation o ops in
      IsAccounted ops' (count_memory_operation o freed s)
stored-IsAccounted o ops s (fresh, counts, fits) v =
    let (freed, ops') = store_operation o ops in
    let (sizes, small) = store_operation-fits o ops fits v.sizes in
    let (alloc, free, remaining) = count_memory_operation-sizes o freed s v.freed in
    let grown = rw counts at (store_operation-size o ops v.consistent) in
    record {
      consistent = store_operation-IsConsistent o ops fresh v.consistent;
      sizes = sizes;
      freed = rw free (omega arith);
      remaining =
          remaining
          ∙ remaining_step (live_size ops) (live_size ops') o.alloc_size (freed_size freed)
              s.total_remaining_size grown small v.remaining;
      total =
          rw (alloc, free, remaining)
            (total_step s.total_alloc_size s.total_free_size s.total_remaining_size o.alloc_size
              (freed_size freed) small v.total);
    }

attached-IsAccounted :
    (b : Backtrace) (ops : OperationStore) (s : MemoryStats)
    → IsAccounted ops s
    → IsAccounted (attach_backtrace b ops) s
attached-IsAccounted b ops s v = record {
  consistent = attach_backtrace-IsConsistent b ops v.consistent;
  sizes = attach_backtrace-SizesFit b ops v.sizes;
  freed = v.freed;
  remaining = rw (attach_backtrace-size b ops) v.remaining;
  total = v.total;
}

-- Every call of the receiver keeps the accounts right.
handle-IsAccounted :
    (e : Event) (c : Controller)
    → IsReceived e
    → IsAccounted c.operations c.global_stats
    → let c' = handle e c in IsAccounted c'.operations c'.global_stats
unfolding handle on_new_connection clear_data reset add_memory_operation add_backtrace
    on_thread_operation add_symbol_infos
handle-IsAccounted connected c w v = record {
  consistent = record { rising = tt; non_freed = refl };
  sizes = v.sizes;
  freed = omega arith;
  remaining = omega (arith, live_size_none (clear_data c).operations refl);
  total = omega arith;
}
handle-IsAccounted (memory o) c w v = stored-IsAccounted o c.operations c.global_stats w v
handle-IsAccounted (thread o) c w v = record {
  consistent = v.consistent;
  sizes = v.sizes;
  freed = v.freed;
  remaining = v.remaining;
  total = v.total;
}
handle-IsAccounted (traced b) c w v =
    let a = attached-IsAccounted b c.operations c.global_stats v in
    record {
      consistent = a.consistent;
      sizes = a.sizes;
      freed = a.freed;
      remaining = a.remaining;
      total = a.total;
    }
handle-IsAccounted (symbols x) c w v = record {
  consistent = v.consistent;
  sizes = v.sizes;
  freed = v.freed;
  remaining = v.remaining;
  total = v.total;
}

run-IsAccounted :
    (es : List Event) (c : Controller)
    → AreReceived es
    → IsAccounted c.operations c.global_stats
    → let c' = run es c in IsAccounted c'.operations c'.global_stats
unfolding run
run-IsAccounted [] c w v = v
run-IsAccounted (e ∷ es) c w v = run-IsAccounted es (handle e c) w.1 (handle-IsAccounted e c w.0 v)

new_controller-IsAccounted : IsAccounted new_controller.operations new_controller.global_stats
new_controller-IsAccounted = record {
  consistent = record { rising = tt; non_freed = refl };
  sizes = tt;
  freed = omega arith;
  remaining = omega (arith, live_size_none new_controller.operations refl);
  total = omega arith;
}

-- After any sequence of calls of the receiver, from the start of the server on, in which every
-- memory operation is of one of the nine codes of memory functions, not freed and of a size of 64
-- bits: the list of the operations not freed is that part of the list of all operations, in the
-- same order; the remaining size shown is the sum of their sizes, and the total allocated size is
-- the freed size and the remaining size together, modulo 2 ^ 64.
pub run-new_controller-IsAccounted :
    (es : List Event)
    → AreReceived es
    → let c = run es new_controller in IsAccounted c.operations c.global_stats
run-new_controller-IsAccounted es w = run-IsAccounted es new_controller w new_controller-IsAccounted
