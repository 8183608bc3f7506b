-- ===== src/Tests/Library.antt =====
-- The client library of lib, at concrete data.
use aleakd.Client.Comm.Ends.{Ends}
use aleakd.Base.{
  ◌≤◌, length-replicate, ℕ, ◌+◌, ◌<◌, ◌≡◌, ◌++◌, refl, true, List, [], ◌∷◌, length, replicate,
  arith,
}
use aleakd.Client.Comm.{Now, Comm, new_comm, Run}
use aleakd.Client.Comm.Buffer.{
  concat, first_message, session, send_all, session_in_order, send_all-overflow,
}
use aleakd.Base.{none, some}
use aleakd.Client.Wrapper.{Env}
use aleakd.Client.Wrapper.Sends.{EnvFits}
use aleakd.Client.Calls.{Call, run_library}
use aleakd.Client.Calls.Says.{CallsFit, all_say}
use aleakd.Client.Calls.Library.{HasDelivered, run_library-HasDelivered}
use aleakd.Client.Cache.{Remembers, Slot, check_addr, check_addr-Remembers}

abbrev now : Now
now = record { time_sec = 7; time_usec = 8; thread_id = 140000 }

abbrev early : List (List ℕ)
early = (1 ∷ 2 ∷ []) ∷ (3 ∷ []) ∷ []

abbrev late : List (List ℕ)
late = (4 ∷ 5 ∷ []) ∷ []

early_fits : length (concat early) ≤ 4096
unfolding concat
early_fits = omega arith

session_in_order_example :
    Ends
      (λ c. concat c.sent ≡ (first_message now ++ concat early) ++ concat late)
      (session early 3 now late)
session_in_order_example =
    session_in_order early 3 now late early_fits (omega arith, tt) (omega arith)

abbrev too_many : List (List ℕ)
too_many = replicate 2 0 ∷ (9 ∷ []) ∷ []

abbrev full_comm : Comm
full_comm = record new_comm { pre_init_buffer = replicate 4094 1 }

too_many_bytes : 4096 < length {A = ℕ} (replicate 4094 1) + length (concat too_many)
unfolding concat
too_many_bytes = omega (arith, length-replicate {A = ℕ} 4094 1)

send_all-overflow_example : send_all too_many full_comm ≡ Run.overflow
send_all-overflow_example =
    send_all-overflow too_many full_comm refl (omega (arith, length-replicate {A = ℕ} 4094 1))
      too_many_bytes

abbrev a_cache : List Slot
a_cache = record { addr = 500; count = 3 } ∷ record { addr = 600; count = 1 } ∷ []

check_addr-Remembers_example : Remembers 700 a_cache (check_addr 700 a_cache)
check_addr-Remembers_example = check_addr-Remembers 700 a_cache (omega arith)

abbrev an_env : Env
an_env = record {
  now = λ n. now;
  symbol = λ addr. record {
    object_name = some (97 ∷ []);
    object_addr = 64;
    symbol_name = none;
    symbol_addr = 0;
  };
  pipe_found = true;
  pipe_fd = some 3;
  backtrace_setting = none;
  tmpbuf = 9000;
}

an_env-EnvFits : EnvFits an_env
an_env-EnvFits = record {
  now = λ n. record { time_sec = omega arith; time_usec = omega arith; thread_id = omega arith };
  symbol = λ addr. record {
    object_name = omega arith;
    object_addr = omega arith;
    symbol_name = tt;
    symbol_addr = omega arith;
  };
}

abbrev some_calls : List Call
some_calls =
    Call.malloc 16 4096 (500 ∷ [])
    ∷ Call.pthread_create (some 77)
    ∷ Call.realloc 4096 32 8192 []
    ∷ Call.calloc 4 8 0 []
    ∷ Call.free 8192 (500 ∷ 501 ∷ [])
    ∷ []

some_calls-fit : CallsFit some_calls
some_calls-fit = (
  (omega arith, omega arith, ((omega arith, tt), omega arith)),
  (
    omega arith,
    (
      (omega arith, omega arith, omega arith, (tt, omega arith)),
      (
        (omega arith, omega arith, (tt, omega arith)),
        ((omega arith, ((omega arith, (omega arith, tt)), omega arith)), tt),
      ),
    ),
  ),
)

run_library-HasDelivered_example :
    Ends (HasDelivered (all_say some_calls)) (run_library an_env some_calls)
run_library-HasDelivered_example =
    run_library-HasDelivered an_env an_env-EnvFits (refl, (2, refl)) some_calls some_calls-fit
