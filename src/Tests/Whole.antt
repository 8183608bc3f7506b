-- ===== src/Tests/Whole.antt =====
-- What the library runs in and the calls of a program, for the tests of lib with the server.
use aleakd.Client.Calls.Says.{says}
use aleakd.Base.{ℕ, zero, suc, ◌++◌, ◌≤◌, length, true, some, none, List, [], ◌∷◌, arith}
use aleakd.Client.Wrapper.{Env}
use aleakd.Client.Wrapper.Sends.{EnvFits}
use aleakd.Client.Calls.{Call}
use aleakd.Client.Calls.Says.{CallsFit, all_say}

abbrev pub an_env : Env
an_env = record {
  now = λ n. record { time_sec = 7; time_usec = 8; thread_id = 140000 };
  symbol = λ addr. record {
    object_name = some (97 ∷ []);
    object_addr = 64;
    symbol_name = none;
    symbol_addr = 0;
  };
  pipe_found = true;
  pipe_fd = some 3;
  backtrace_setting = none;
  tmpbuf = 9000;
}

pub an_env-EnvFits : EnvFits an_env
an_env-EnvFits = record {
  now = λ n. record { time_sec = omega arith; time_usec = omega arith; thread_id = omega arith };
  symbol = λ addr. record {
    object_name = omega arith;
    object_addr = omega arith;
    symbol_name = tt;
    symbol_addr = omega arith;
  };
}

abbrev pub two_calls : List Call
two_calls = Call.malloc 16 4096 (500 ∷ []) ∷ Call.free 4096 (501 ∷ []) ∷ []

pub two_calls-fit : CallsFit two_calls
two_calls-fit = (
  (omega arith, omega arith, ((omega arith, tt), omega arith)),
  ((omega arith, ((omega arith, tt), omega arith)), tt),
)

-- An allocation and its release, again and again.
abbrev times : ℕ → List Call
times zero = []
times (suc n) = two_calls ++ times n

times-fit : (n : ℕ) → CallsFit (times n)
times-fit zero = tt
times-fit (suc n) = (two_calls-fit.0, (two_calls-fit.1.0, times-fit n))

abbrev pub many_calls : List Call
many_calls = times 8

pub many_calls-fit : CallsFit many_calls
many_calls-fit = times-fit 8

pub enough_said : 16 ≤ length (all_say many_calls)
unfolding all_say says
enough_said = omega arith
