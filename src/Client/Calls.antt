-- ===== src/Client/Calls.antt =====
-- A run of the library, lib: it starts, the program calls the wrapped functions, and it ends.
pub mod Says
pub mod Delivery
pub mod Library
pub mod Received
use aleakd.Base.{ℕ, false, Option, List, [], ◌∷◌, if◌then◌else◌}
use aleakd.Client.Comm.{Run, done, ◌>>=◌, new_comm}
use aleakd.Client.Wrapper
use aleakd.Client.Wrapper.{Env, Wrapper, wrapper_init, wrapper_dispose}
use aleakd.Client.Threads

-- A call of a wrapped function, with what the real one gives and the trace of the call. `prctl` is left
-- out: the thread that it names is the one that calls it.
pub data Call : Type 0 where
  malloc : ℕ → ℕ → List ℕ → Call
  calloc : ℕ → ℕ → ℕ → List ℕ → Call
  realloc : ℕ → ℕ → ℕ → List ℕ → Call
  posix_memalign : ℕ → ℕ → ℕ → List ℕ → Call
  aligned_alloc memalign valloc pvalloc : ℕ → ℕ → List ℕ → Call
  free : ℕ → List ℕ → Call
  pthread_create : Option ℕ → Call
  pthread_setname_np : ℕ → List ℕ → Call

abbrev pub forget : Run (ℕ × Wrapper) → Run Wrapper
forget r = r >>= λ x. done x.1

unfoldable pub run_call : Env → Call → Wrapper → Run Wrapper
unfolding Wrapper.malloc Wrapper.calloc Wrapper.realloc Wrapper.posix_memalign Wrapper.aligned_alloc
    Wrapper.memalign Wrapper.valloc Wrapper.pvalloc Wrapper.free Threads.pthread_create
    Threads.pthread_setname_np
run_call env (malloc size real trace) w = forget (Wrapper.malloc env size real trace w)
run_call env (calloc num size real trace) w = forget (Wrapper.calloc env num size real trace w)
run_call env (realloc ptr size real trace) w = forget (Wrapper.realloc env ptr size real trace w)
run_call env (posix_memalign size ret p trace) w =
    forget (Wrapper.posix_memalign env size ret p trace w)
run_call env (aligned_alloc size real trace) w =
    forget (Wrapper.aligned_alloc env size real trace w)
run_call env (memalign size real trace) w = forget (Wrapper.memalign env size real trace w)
run_call env (valloc size real trace) w = forget (Wrapper.valloc env size real trace w)
run_call env (pvalloc size real trace) w = forget (Wrapper.pvalloc env size real trace w)
run_call env (free ptr trace) w = Wrapper.free env ptr trace w
run_call env (pthread_create id) w = Threads.pthread_create env id w
run_call env (pthread_setname_np id name) w = Threads.pthread_setname_np env id name w

unfoldable pub run_calls : Env → List Call → Wrapper → Run Wrapper
unfolding run_call
run_calls env [] w = done w
run_calls env (call ∷ calls) w = run_call env call w >>= run_calls env calls

-- The globals before anything has run.
abbrev pub new_wrapper : Wrapper
new_wrapper = record {
  comm = new_comm;
  cache = [];
  alloc_number = 0;
  is_initializing = false;
  is_backtrace_initializing = false;
  resolved = false;
  send_backtrace = false;
  tmp_pos = 0;
  tmp_allocs = 0;
}

-- `aleakd_constructor`, the calls, and `aleakd_destructor`. When the start fails the program ends.
unfoldable pub run_library : Env → List Call → Run Wrapper
unfolding run_calls wrapper_init wrapper_dispose
run_library env calls = wrapper_init env new_wrapper >>= λ (ok, w).
    let rest : Run Wrapper = run_calls env calls w >>= λ w'. done (wrapper_dispose w') in
    if ok then rest else Run.exited
