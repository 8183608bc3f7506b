-- ===== src/Client/Wrapper.antt =====
-- lib/wrapper.c: the functions that the library puts in front of the real ones, and its start. What a
-- real function gives is an argument of the function in front of it.
pub mod Sends
pub mod Names
pub mod Reports
use aleakd.Base.{
  ℕ, ◌+◌, ◌-◌, ◌*◌, ◌%◌, ◌^◌, ◌||◌, Bool, true, false, not, Option, none, some, List, [], ◌∷◌, ◌++◌,
  ltb, leb, ◌==◌, if◌then◌else◌, length, replicate, add64, add32,
}
use aleakd.Shared.Codes.{MsgCode, code}
use aleakd.Shared.Messages.{MemoryData, Message, message_bytes}
use aleakd.Client.Comm.{Now, Comm, Run, done, overflow, crashed, exited, ◌>>=◌, send_safe}
use aleakd.Client.Comm
use aleakd.Client.Make.{memory_init, backtrace_init, backtrace_make, symbolinfos_init}
use aleakd.Client.Cache.{Slot, check_addr}
use aleakd.Client.Cache

-- What `dladdr` gives for an address; a name may be a null pointer.
pub record Symbol : Type 0 where
  pub object_name : Option (List ℕ)
  pub object_addr : ℕ
  pub symbol_name : Option (List ℕ)
  pub symbol_addr : ℕ

-- What the library asks of the system: the time and the thread at which the message of a number is
-- made, the symbol of an address, the pipe (whether its file is there and what `open` gives), the
-- variable `ALEAKD_BACKTRACE` as an int, and the address of `tmpbuf`.
pub record Env : Type 0 where
  pub now : ℕ → Now
  pub symbol : ℕ → Symbol
  pub pipe_found : Bool
  pub pipe_fd : Option ℕ
  pub backtrace_setting : Option ℕ
  pub tmpbuf : ℕ

-- The globals of the file, with those of the other files of the library. `resolved` is whether the
-- real functions were found; `dlsym` finds all of them or none. `g_bUseServerMessage` is always 1.
pub record Wrapper : Type 0 where
  pub comm : Comm
  pub cache : List Slot
  pub alloc_number : ℕ
  pub is_initializing : Bool
  pub is_backtrace_initializing : Bool
  pub resolved : Bool
  pub send_backtrace : Bool
  pub tmp_pos : ℕ
  pub tmp_allocs : ℕ

-- `dummy_malloc`
unfoldable pub dummy_malloc : Env → ℕ → Wrapper → Run (ℕ × Wrapper)
dummy_malloc env size w =
    if leb 8192 (add64 w.tmp_pos size)
    then exited
    else done (
      env.tmpbuf + w.tmp_pos,
      record w { tmp_pos = add64 w.tmp_pos size; tmp_allocs = add64 w.tmp_allocs 1 },
    )

-- Whether `g_bSendBacktrace` is set.
abbrev pub backtrace_enabled : Option ℕ → Bool
backtrace_enabled none = true
backtrace_enabled (some n) = not (n == 0)

-- `wrapper_init`, with whether its result is 0. A call while or after another one does nothing.
unfoldable pub wrapper_init : Env → Wrapper → Run (Bool × Wrapper)
unfolding Comm.init Cache.init
wrapper_init env w =
    let (ok, opened) =
      Comm.init env.pipe_found env.pipe_fd (env.now (add32 w.comm.msg_num 1)) w.comm in
    let started : Run (Bool × Wrapper) = opened >>= λ c. done (
      ok,
      record w {
        comm = c;
        cache = Cache.init 32768;
        is_initializing = true;
        is_backtrace_initializing = false;
        resolved = true;
        send_backtrace = backtrace_enabled env.backtrace_setting;
      },
    ) in
    if w.is_initializing then done (true, w) else started

-- `if(!real_…){ wrapper_init(); }`
unfoldable pub start : Env → Wrapper → Run Wrapper
unfolding wrapper_init
start env w =
    let started : Run Wrapper = wrapper_init env w >>= λ r. done r.1 in
    if w.resolved then done w else started

-- `aleakd_data_incr_alloc_number` and `aleakd_data_get_alloc_number`
unfoldable pub next_alloc : Wrapper → Wrapper
next_alloc w = record w { alloc_number = add64 w.alloc_number 1 }

-- The `servercomm_msg_…_send_v1` functions
unfoldable pub send_message : Message → Wrapper → Run Wrapper
unfolding send_safe
send_message m w = send_safe (message_bytes m) w.comm >>= λ c. done (record w { comm = c })

-- The time and the thread of the next message.
abbrev pub next_now : Env → Wrapper → Now
next_now env w = env.now (add32 w.comm.msg_num 1)

-- `memcpy` of a name to the front of an array of `n` zeros, by the length of the name.
unfoldable pub put_name : ℕ → Option (List ℕ) → Run (List ℕ)
put_name n none = done (replicate n 0)
put_name n (some bs) =
    if ltb n (length bs) then overflow else done (bs ++ replicate (n - length bs) 0)

-- The symbol of an address is sent.
unfoldable pub send_symbol : Env → ℕ → Wrapper → Run Wrapper
unfolding symbolinfos_init put_name send_message
send_symbol env addr w =
    let s = env.symbol addr in
    let ((h, d), c) = symbolinfos_init (next_now env w) w.comm in
    put_name 256 s.object_name >>= λ object. put_name 96 s.symbol_name >>= λ symbol.
    send_message
      (Message.symbolinfos h (record d {
        addr = addr;
        object_name = object;
        object_addr = s.object_addr;
        symbol_name = symbol;
        symbol_addr = s.symbol_addr;
      }))
      (record w { comm = c })

-- The loop "Send symbol infos if needed"
unfoldable pub send_symbols : Env → List ℕ → Wrapper → Run Wrapper
unfolding check_addr send_symbol
send_symbols env [] w = done w
send_symbols env (addr ∷ addrs) w =
    let (known, cache) = check_addr addr w.cache in
    let w' = record w { cache = cache } in
    (if known then done w' else send_symbol env addr w') >>= send_symbols env addrs

-- `backtrace_send`
unfoldable pub backtrace_send : Env → List ℕ → ℕ → Wrapper → Run Wrapper
unfolding backtrace_init backtrace_make send_message send_symbols
backtrace_send env addrs origin w =
    let ((h, d), c) = backtrace_init (next_now env w) w.comm in
    send_message (Message.backtrace h (backtrace_make addrs (record d { origin_msg_num = origin })))
      (record w { comm = c })
    >>= send_symbols env addrs

-- The report in each of the memory functions: a message with the code and the data that the function
-- fills in, then the backtrace. `trace` is what `backtrace` gives.
unfoldable pub report : Env → MsgCode → MemoryData → List ℕ → Wrapper → Run Wrapper
unfolding memory_init send_message backtrace_send
report env kind what trace w =
    let ((h, d), c) = memory_init (next_now env w) w.comm in
    send_message (Message.memory (record h { msg_code = code kind }) what) (record w { comm = c })
    >>= λ w'.
        let traced = backtrace_send env trace h.msg_num w' in
        if w'.send_backtrace then traced else done w'

-- What an allocating function fills in. The number is cut to an `int`.
abbrev pub alloc_data : ℕ → ℕ → ℕ → Wrapper → MemoryData
alloc_data size p old w = record {
  alloc_size = size;
  alloc_ptr = p;
  alloc_num = w.alloc_number % 2 ^ 32;
  free_ptr = old;
}

-- `malloc`, where the real one would give `real`: its result, and the state.
unfoldable pub malloc : Env → ℕ → ℕ → List ℕ → Wrapper → Run (ℕ × Wrapper)
unfolding next_alloc start dummy_malloc report
malloc env size real trace w = start env (next_alloc w) >>= λ w1.
    (if w1.resolved then done (real, w1) else dummy_malloc env size w1) >>= λ (p, w2).
    let reported =
      report env MsgCode.malloc (alloc_data size p 0 w2) trace w2 >>= λ w3. done (p, w3) in
    if (p == 0) || w2.is_backtrace_initializing then done (p, w2) else reported

-- `calloc`. The size that it reports is that of one element.
unfoldable pub calloc : Env → ℕ → ℕ → ℕ → List ℕ → Wrapper → Run (ℕ × Wrapper)
unfolding next_alloc start dummy_malloc report
calloc env num size real trace w = start env (next_alloc w) >>= λ w1.
    (if w1.resolved then done (real, w1) else dummy_malloc env (num * size % 2 ^ 64) w1)
    >>= λ (p, w2).
        let reported =
          report env MsgCode.calloc (alloc_data size p 0 w2) trace w2 >>= λ w3. done (p, w3) in
        if p == 0 then done (p, w2) else reported

-- The shape of the other allocating functions: the real function is called without a test that it was
-- found, and where it succeeds `p` is reported.
unfoldable pub call_real : Env → MsgCode → ℕ → Bool → ℕ → ℕ → List ℕ → Wrapper → Run Wrapper
unfolding next_alloc start report
call_real env kind size success p old trace w = start env w >>= λ w1.
    let w2 = next_alloc w1 in
    let reported = report env kind (alloc_data size p old w2) trace w2 in
    if w2.resolved then if success then reported else done w2 else crashed

-- `realloc`
unfoldable pub realloc : Env → ℕ → ℕ → ℕ → List ℕ → Wrapper → Run (ℕ × Wrapper)
unfolding call_real
realloc env ptr size real trace w =
    call_real env MsgCode.realloc size (not (real == 0)) real ptr trace w >>= λ w'. done (real, w')

-- `posix_memalign`, where the real one returns `ret` and stores `p`.
unfoldable pub posix_memalign : Env → ℕ → ℕ → ℕ → List ℕ → Wrapper → Run (ℕ × Wrapper)
unfolding call_real
posix_memalign env size ret p trace w =
    call_real env MsgCode.posix_memalign size (ret == 0) p 0 trace w >>= λ w'. done (ret, w')

-- `aligned_alloc`
unfoldable pub aligned_alloc : Env → ℕ → ℕ → List ℕ → Wrapper → Run (ℕ × Wrapper)
unfolding call_real
aligned_alloc env size real trace w =
    call_real env MsgCode.aligned_alloc size (not (real == 0)) real 0 trace w >>= λ w'.
    done (real, w')

-- `memalign`
unfoldable pub memalign : Env → ℕ → ℕ → List ℕ → Wrapper → Run (ℕ × Wrapper)
unfolding call_real
memalign env size real trace w =
    call_real env MsgCode.memalign size (not (real == 0)) real 0 trace w >>= λ w'. done (real, w')

-- `valloc`
unfoldable pub valloc : Env → ℕ → ℕ → List ℕ → Wrapper → Run (ℕ × Wrapper)
unfolding call_real
valloc env size real trace w =
    call_real env MsgCode.valloc size (not (real == 0)) real 0 trace w >>= λ w'. done (real, w')

-- `pvalloc`
unfoldable pub pvalloc : Env → ℕ → ℕ → List ℕ → Wrapper → Run (ℕ × Wrapper)
unfolding call_real
pvalloc env size real trace w =
    call_real env MsgCode.pvalloc size (not (real == 0)) real 0 trace w >>= λ w'. done (real, w')

-- `free`: the report comes before the real call.
unfoldable pub free : Env → ℕ → List ℕ → Wrapper → Run Wrapper
unfolding start report
free env ptr trace w = start env w >>= λ w1.
    let reported =
      report env MsgCode.free
        (record { alloc_size = 0; alloc_ptr = 0; alloc_num = 0; free_ptr = ptr }) trace w1 in
    if ptr == 0 then done w1 else reported

-- `wrapper_dispose`
unfoldable pub wrapper_dispose : Wrapper → Wrapper
unfolding Comm.dispose
wrapper_dispose w = record w { comm = Comm.dispose w.comm }
