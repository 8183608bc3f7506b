-- ===== src/Client/Calls/Library.antt =====
-- A whole run of the library, lib.
use aleakd.Client.Comm.Ends.{Ends, Ends-if_true, Ends-map, Ends-then}
use aleakd.Client.Calls.Delivery.{
  report_unless, report_thread-HasSent, free-HasSent, call_real-result, calloc-HasSent,
  malloc-HasSent,
}
use aleakd.Client.Calls.Says.{all_say, CallsFit, CallFits, says}
use aleakd.Base.{
  ℕ, zero, suc, ◌-◌, ◌≤◌, ◌<◌, ◌≡◌, refl, ap, ◌∙◌, subst, Bool, true, not, none, some, List, [],
  ◌∷◌, ◌++◌, ◌==◌, append-nil, length, length-append, length-replicate, take, replicate, arith,
}
use aleakd.Shared.Codes.{MsgCode, code}
use aleakd.Shared.Messages.{Message}
use aleakd.Server.Process.Decode.{IsWellSent}
use aleakd.Server.Process.Stream.{stream, AllWellSent}
use aleakd.Client.Comm.{Run, header_init, new_comm}
use aleakd.Client.Comm.Buffer.{IsBuffering, init-connected, dispose-written, concat, first_message}
use aleakd.Client.Wrapper
use aleakd.Client.Wrapper.{Env, Wrapper, wrapper_init, wrapper_dispose}
use aleakd.Client.Wrapper.Sends.{
  EnvFits, Said, said, HasSent, HasSent-then, IsRunning, header_init-HeaderFits,
}
use aleakd.Client.Wrapper.Names.{IsName, zeros-IsTerminated}
use aleakd.Client.Wrapper.Reports.{HasSent-none}
use aleakd.Client.Threads.{thread_name}
use aleakd.Client.Threads
use aleakd.Client.Calls.{Call, run_call, run_calls, run_library, new_wrapper}

-- The array with a name in it.
padded-IsName :
    (name : List ℕ) → length name < 24 → IsName 24 (name ++ replicate (24 - length name) 0)
padded-IsName name h = (
  omega (
    arith,
    length-append name (replicate (24 - length name) 0),
    length-replicate {A = ℕ} (24 - length name) 0,
  ),
  zeros-IsTerminated name (24 - length name) (omega arith),
)

take-all : (n : ℕ) (xs : List ℕ) → length xs ≤ n → take n xs ≡ xs
take-all zero [] h = refl
take-all zero (x ∷ xs) h = absurd (omega arith)
take-all (suc n) [] h = refl
take-all (suc n) (x ∷ xs) h = ap (◌∷◌ x) (take-all n xs (omega arith))

thread_name-padded :
    (name : List ℕ) → length name < 24 → thread_name name ≡ name ++ replicate (24 - length name) 0
unfolding thread_name
thread_name-padded name h =
    ap (λ l. l ++ replicate (24 - length name) 0) (take-all 24 name (omega arith))

module _ (env : Env) (fits : EnvFits env) where
  -- A call, whatever was sent before.
  run_call-HasSent :
      (call : Call) (acc : List ℕ) (w : Wrapper)
      → CallFits call
      → IsRunning acc w
      → Ends (HasSent acc (says call)) (run_call env call w)
  unfolding run_call says code Wrapper.realloc Wrapper.posix_memalign Wrapper.aligned_alloc
      Wrapper.memalign Wrapper.valloc Wrapper.pvalloc Threads.pthread_create
      Threads.pthread_setname_np
  run_call-HasSent (Call.malloc size real trace) acc w f b =
      malloc-HasSent env fits size real trace acc w f.0 f.1 f.2 b
  run_call-HasSent (Call.calloc num size real trace) acc w f b =
      calloc-HasSent env fits num size real trace acc w f.0 f.1 f.2 b
  run_call-HasSent (Call.realloc ptr size real trace) acc w f b =
      call_real-result env fits MsgCode.realloc size (not (real == 0)) real ptr real trace acc w
        (omega arith) (omega arith) f.1 f.2 f.0 f.3 b
  run_call-HasSent (Call.posix_memalign size ret p trace) acc w f b =
      call_real-result env fits MsgCode.posix_memalign size (ret == 0) p 0 ret trace acc w
        (omega arith) (omega arith) f.0 f.1 (omega arith) f.2 b
  run_call-HasSent (Call.aligned_alloc size real trace) acc w f b =
      call_real-result env fits MsgCode.aligned_alloc size (not (real == 0)) real 0 real trace acc w
        (omega arith) (omega arith) f.0 f.1 (omega arith) f.2 b
  run_call-HasSent (Call.memalign size real trace) acc w f b =
      call_real-result env fits MsgCode.memalign size (not (real == 0)) real 0 real trace acc w
        (omega arith) (omega arith) f.0 f.1 (omega arith) f.2 b
  run_call-HasSent (Call.valloc size real trace) acc w f b =
      call_real-result env fits MsgCode.valloc size (not (real == 0)) real 0 real trace acc w
        (omega arith) (omega arith) f.0 f.1 (omega arith) f.2 b
  run_call-HasSent (Call.pvalloc size real trace) acc w f b =
      call_real-result env fits MsgCode.pvalloc size (not (real == 0)) real 0 real trace acc w
        (omega arith) (omega arith) f.0 f.1 (omega arith) f.2 b
  run_call-HasSent (Call.free ptr trace) acc w f b = free-HasSent env fits ptr trace acc w f.0 f.1 b
  run_call-HasSent (Call.pthread_create none) acc w f b = HasSent-none acc w b
  run_call-HasSent (Call.pthread_create (some id)) acc w f b =
      report_thread-HasSent env fits MsgCode.pthread_create id (replicate 24 0) acc w (omega arith)
        (omega arith) f (refl, zeros-IsTerminated [] 24 (omega arith)) b
  run_call-HasSent (Call.pthread_setname_np id name) acc w f b = rw (thread_name-padded name f.1) (
      report_unless acc _ (id == 0) _ w
        (report_thread-HasSent env fits MsgCode.pthread_set_name id
          (name ++ replicate (24 - length name) 0) acc w (omega arith) (omega arith) f.0
          (padded-IsName name f.1) b)
        b)

  run_calls-HasSent :
      (calls : List Call) (acc : List ℕ) (w : Wrapper)
      → CallsFit calls
      → IsRunning acc w
      → Ends (HasSent acc (all_say calls)) (run_calls env calls w)
  unfolding run_calls all_say
  run_calls-HasSent [] acc w f b = HasSent-none acc w b
  run_calls-HasSent (call ∷ calls) acc w (f, fs) b =
      Ends-then (HasSent acc (says call)) (HasSent acc (says call ++ all_say calls))
        (run_calls env calls) (run_call env call w) (run_call-HasSent call acc w f b)
        λ v (ms, well, said_ms, bv).
          Ends-map (HasSent (acc ++ stream ms) (all_say calls))
            (HasSent acc (says call ++ all_say calls)) _
            (run_calls-HasSent calls (acc ++ stream ms) v fs bv)
            λ v' s.
              subst (λ what. HasSent acc (what ++ all_say calls) v') said_ms
                (HasSent-then acc ms (all_say calls) v' well s)

-- What reaches the server over a whole run.
abbrev pub HasDelivered : List Said → Wrapper → Type 0
HasDelivered what w =
    (ms : List Message) × AllWellSent ms × (said ms ≡ what) × (concat w.comm.sent ≡ stream ms)

first_app : Env → Message
first_app env = Message.app (header_init (env.now 1) new_comm).0

first_app-IsWellSent : (env : Env) → EnvFits env → IsWellSent (first_app env)
unfolding first_app header_init code
first_app-IsWellSent env fits =
    (header_init-HeaderFits (env.now 1) new_comm 1 (fits.now 1) (omega arith), refl)

-- The library has a pipe to open.
abbrev pub IsConnectable : Env → Type 0
IsConnectable env = (env.pipe_found ≡ true) × ((k : ℕ) × (env.pipe_fd ≡ some (suc k)))

module _ (env : Env) (fits : EnvFits env) (pipe : IsConnectable env) where
  wrapper_init-IsRunning :
      Ends
        (λ (r : Bool × Wrapper). (r.0 ≡ true) × IsRunning (first_message (env.now 1) ++ []) r.1)
        (wrapper_init env new_wrapper)
  unfolding wrapper_init
  wrapper_init-IsRunning =
      let (found, (k, opened)) = pipe in
      let (ok, b) = init-connected env.pipe_found env.pipe_fd k (env.now 1) found opened in
      Ends-then (IsBuffering (first_message (env.now 1) ++ [])) _ _ _ b
        λ c bc. (ok, (bc, refl, refl))

  delivered :
      (what : List Said) (w : Wrapper)
      → HasSent (first_message (env.now 1) ++ []) what w
      → HasDelivered what (wrapper_dispose w)
  unfolding wrapper_dispose stream said first_app
  delivered what w (ms, well, said_ms, b) = (
    first_app env ∷ ms,
    (first_app-IsWellSent env fits, well),
    said_ms,
    dispose-written _ w.comm b.0
        ∙ ap (λ bs. bs ++ stream ms) (append-nil (first_message (env.now 1))),
  )

  -- A run with a pipe to open never writes past a buffer or an array, and what is written to the
  -- pipe are whole messages as the server reads them, which report the calls in their order, as `says`
  -- lists them: a `calloc` with the size of one element, and a `realloc` that gives a null pointer not
  -- at all, although it may have freed its block. The values fit 64 bits, the traces have at most 50
  -- addresses, and the names of threads, objects and symbols leave room for a closing 0.
  pub run_library-HasDelivered :
      (calls : List Call)
      → CallsFit calls
      → Ends (HasDelivered (all_say calls)) (run_library env calls)
  unfolding run_library
  run_library-HasDelivered calls f =
      let acc : List ℕ = first_message (env.now 1) ++ [] in
      let Q : Wrapper → Type 0 = HasDelivered (all_say calls) in
      Ends-then _ Q _ (wrapper_init env new_wrapper) wrapper_init-IsRunning λ (ok, w) (e, running).
        Ends-if_true Q ok _ Run.exited e (
          Ends-then (HasSent acc (all_say calls)) Q _ (run_calls env calls w)
            (run_calls-HasSent env fits calls acc w f running) λ v s. delivered (all_say calls) v s)
