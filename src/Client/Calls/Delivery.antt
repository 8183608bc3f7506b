-- ===== src/Client/Calls/Delivery.antt =====
-- What the calls of a run of the library make it send.
use aleakd.Client.Comm.Ends.{Ends, Ends-if_true, Ends-map}
use aleakd.Base.{
  ℕ, ◌≤◌, ◌<◌, ◌≡◌, refl, sym, subst, Bool, true, false, not, ◌||◌, List, [], ◌∷◌, ◌++◌, ◌==◌,
  arith, if◌then◌else◌,
}
use aleakd.Shared.Codes.{MsgCode, code}
use aleakd.Shared.Messages.{Header, MemoryData, Message, message_bytes}
use aleakd.Server.Process.Decode.{IsWellSent}
use aleakd.Client.Comm.{Run, done, ◌>>=◌, header_init}
use aleakd.Client.Make.{thread_init}
use aleakd.Client.Wrapper.{
  Env, Wrapper, start, next_alloc, alloc_data, next_now, send_message, call_real, report,
  wrapper_dispose,
}
use aleakd.Client.Wrapper
use aleakd.Client.Wrapper.Sends.{
  EnvFits, Said, said_of, HasSent, IsRunning, send_message-IsRunning, header_init-HeaderFits,
}
use aleakd.Client.Wrapper.Names.{IsName}
use aleakd.Client.Wrapper.Reports.{HasSent-message, HasSent-none, report-HasSent}
use aleakd.Client.Threads.{report_thread}
use aleakd.Client.Calls.Says.{TraceFits, IsWord, when}
use aleakd.Client.Calls.{forget}

start_running : (env : Env) (w : Wrapper) → w.resolved ≡ true → start env w ≡ done w
unfolding start
start_running env w r = rw (r) refl

after_start :
    {A : Type 0} (Q : A → Type 0) (env : Env) (w : Wrapper) (f : Wrapper → Run A)
    → w.resolved ≡ true
    → Ends Q (f w)
    → Ends Q (start env w >>= f)
after_start Q env w f r e = subst (λ x. Ends Q (x >>= f)) (sym (start_running env w r)) e

-- A report, or nothing.
report_or_not :
    (acc : List ℕ) (s : Said) (success : Bool) (r : Run Wrapper) (w : Wrapper)
    → Ends (HasSent acc (s ∷ [])) r
    → IsRunning acc w
    → Ends (HasSent acc (when success s)) (if success then r else done w)
report_or_not acc s true r w e b = e
report_or_not acc s false r w e b = HasSent-none acc w b

-- The same where the test is for a null pointer.
pub report_unless :
    (acc : List ℕ) (s : Said) (null : Bool) (r : Run Wrapper) (w : Wrapper)
    → Ends (HasSent acc (s ∷ [])) r
    → IsRunning acc w
    → Ends (HasSent acc (when (not null) s)) (if null then done w else r)
report_unless acc s true r w e b = HasSent-none acc w b
report_unless acc s false r w e b = e

-- A result beside the state changes nothing.
abbrev pub with_result : ℕ → Run Wrapper → Run (ℕ × Wrapper)
with_result a r = r >>= λ w. done (a, w)

pub forget-Ends :
    (Q : Wrapper → Type 0) (a : ℕ) (r : Run Wrapper) → Ends Q r → Ends Q (forget (with_result a r))
forget-Ends Q a (done w) e = e
forget-Ends Q a Run.overflow e = e
forget-Ends Q a Run.crashed e = e
forget-Ends Q a Run.exited e = e

-- What `malloc` and `calloc` do with the pointer that they have.
report_pointer :
    (acc : List ℕ) (s : Said) (p : ℕ) (null test : Bool) (r : Run Wrapper) (w : Wrapper)
    → test ≡ null
    → Ends (HasSent acc (s ∷ [])) r
    → IsRunning acc w
    → Ends
        (HasSent acc (when (not null) s))
        (forget (if test then done (p, w) else with_result p r))
report_pointer acc s p true true r w q e b = HasSent-none acc w b
report_pointer acc s p true false r w q e b = absurd (cc)
report_pointer acc s p false true r w q e b = absurd (cc)
report_pointer acc s p false false r w q e b = forget-Ends (HasSent acc (s ∷ [])) p r e

or_quiet : (b quiet : Bool) → quiet ≡ false → (b || quiet) ≡ b
or_quiet true quiet e = refl
or_quiet false quiet e = e

real_found :
    (Q : Wrapper → Type 0) (found : Bool) (p : ℕ) (w : Wrapper) (other : Run (ℕ × Wrapper))
    (f : ℕ × Wrapper → Run (ℕ × Wrapper))
    → found ≡ true
    → Ends Q (forget (f (p, w)))
    → Ends Q (forget ((if found then done (p, w) else other) >>= f))
real_found Q true p w other f e h = h
real_found Q false p w other f e h = absurd (cc)

after_start-forget :
    (Q : Wrapper → Type 0) (env : Env) (w : Wrapper) (f : Wrapper → Run (ℕ × Wrapper))
    → w.resolved ≡ true
    → Ends Q (forget (f w))
    → Ends Q (forget (start env w >>= f))
after_start-forget Q env w f r e =
    subst (λ x. Ends Q (forget (x >>= f))) (sym (start_running env w r)) e

module _ (env : Env) (fits : EnvFits env) where
  pub call_real-HasSent :
      (kind : MsgCode) (size : ℕ) (success : Bool) (p old : ℕ) (trace acc : List ℕ) (w : Wrapper)
      → 10 ≤ code kind
      → code kind < 20
      → IsWord size
      → IsWord p
      → IsWord old
      → TraceFits trace
      → IsRunning acc w
      → Ends
          (HasSent acc (when success (Said.memory (code kind) size p old)))
          (call_real env kind size success p old trace w)
  unfolding call_real next_alloc
  call_real-HasSent kind size success p old trace acc w low high fs fp fo ft b =
      let Q : Wrapper → Type 0 = HasSent acc (when success (Said.memory (code kind) size p old)) in
      let w2 : Wrapper = next_alloc w in
      after_start Q env w _ b.1 (
        Ends-if_true Q w2.resolved _ _ b.1 (
          report_or_not acc (Said.memory (code kind) size p old) success
            (report env kind (alloc_data size p old w2) trace w2) w2
            (report-HasSent env fits kind (alloc_data size p old w2) trace acc w2 low high
              (record { alloc_size = fs; alloc_ptr = fp; alloc_num = omega arith; free_ptr = fo })
              ft.0 ft.1 b)
            b))

  pub free-HasSent :
      (ptr : ℕ) (trace acc : List ℕ) (w : Wrapper)
      → IsWord ptr
      → TraceFits trace
      → IsRunning acc w
      → Ends
          (HasSent acc (when (not (ptr == 0)) (Said.memory 12 0 0 ptr)))
          (Wrapper.free env ptr trace w)
  unfolding Wrapper.free code
  free-HasSent ptr trace acc w fp ft b =
      let Q : Wrapper → Type 0 = HasSent acc (when (not (ptr == 0)) (Said.memory 12 0 0 ptr)) in
      let d : MemoryData = record {
        alloc_size = 0;
        alloc_ptr = 0;
        alloc_num = 0;
        free_ptr = ptr;
      } in
      after_start Q env w _ b.1 (
        report_unless acc (Said.memory 12 0 0 ptr) (ptr == 0) (report env MsgCode.free d trace w) w
          (report-HasSent env fits MsgCode.free d trace acc w (omega arith) (omega arith)
            (record {
              alloc_size = omega arith;
              alloc_ptr = omega arith;
              alloc_num = omega arith;
              free_ptr = fp;
            })
            ft.0 ft.1 b)
          b)

  pub report_thread-HasSent :
      (kind : MsgCode) (id : ℕ) (name acc : List ℕ) (w : Wrapper)
      → 30 ≤ code kind
      → code kind < 40
      → IsWord id
      → IsName 24 name
      → IsRunning acc w
      → Ends (HasSent acc (Said.thread (code kind) id name ∷ [])) (report_thread env kind id name w)
  unfolding report_thread thread_init header_init said_of
  report_thread-HasSent kind id name acc w low high fi fn b =
      let h : Header = record (header_init (next_now env w) w.comm).0 { msg_code = code kind } in
      let m : Message = Message.thread h (record { thread_id = id; thread_name = name }) in
      let well : IsWellSent m = (
        header_init-HeaderFits (next_now env w) w.comm (code kind) (fits.now _) (omega arith),
        record { thread_id = fi; thread_name = fn.0 },
        low,
        high,
        fn.1,
      ) in
      let w' : Wrapper = record w { comm = (header_init (next_now env w) w.comm).1 } in
      Ends-map (IsRunning (acc ++ message_bytes m)) (HasSent acc (said_of m)) (send_message m w')
        (send_message-IsRunning m acc w' well b)
        λ v bv. HasSent-message m acc [] v well (HasSent-none (acc ++ message_bytes m) v bv)

  pub malloc-HasSent :
      (size real : ℕ) (trace acc : List ℕ) (w : Wrapper)
      → IsWord size
      → IsWord real
      → TraceFits trace
      → IsRunning acc w
      → Ends
          (HasSent acc (when (not (real == 0)) (Said.memory 11 size real 0)))
          (forget (Wrapper.malloc env size real trace w))
  unfolding Wrapper.malloc next_alloc code
  malloc-HasSent size real trace acc w fs fr ft b =
      let s : Said = Said.memory 11 size real 0 in
      let Q : Wrapper → Type 0 = HasSent acc (when (not (real == 0)) s) in
      let w1 : Wrapper = next_alloc w in
      let d : MemoryData = alloc_data size real 0 w1 in
      after_start-forget Q env w1 _ b.1 (
        real_found Q w1.resolved real w1 _ _ b.1 (
          report_pointer acc s real (real == 0) _ (report env MsgCode.malloc d trace w1) w1
            (or_quiet (real == 0) w1.is_backtrace_initializing b.2)
            (report-HasSent env fits MsgCode.malloc d trace acc w1 (omega arith) (omega arith)
              (record {
                alloc_size = fs;
                alloc_ptr = fr;
                alloc_num = omega arith;
                free_ptr = omega arith;
              })
              ft.0 ft.1 b)
            b))

  pub calloc-HasSent :
      (num size real : ℕ) (trace acc : List ℕ) (w : Wrapper)
      → IsWord size
      → IsWord real
      → TraceFits trace
      → IsRunning acc w
      → Ends
          (HasSent acc (when (not (real == 0)) (Said.memory 13 size real 0)))
          (forget (Wrapper.calloc env num size real trace w))
  unfolding Wrapper.calloc next_alloc code
  calloc-HasSent num size real trace acc w fs fr ft b =
      let s : Said = Said.memory 13 size real 0 in
      let Q : Wrapper → Type 0 = HasSent acc (when (not (real == 0)) s) in
      let w1 : Wrapper = next_alloc w in
      let d : MemoryData = alloc_data size real 0 w1 in
      after_start-forget Q env w1 _ b.1 (
        real_found Q w1.resolved real w1 _ _ b.1 (
          report_pointer acc s real (real == 0) _ (report env MsgCode.calloc d trace w1) w1 refl
            (report-HasSent env fits MsgCode.calloc d trace acc w1 (omega arith) (omega arith)
              (record {
                alloc_size = fs;
                alloc_ptr = fr;
                alloc_num = omega arith;
                free_ptr = omega arith;
              })
              ft.0 ft.1 b)
            b))

  -- A function that only calls the real one, with its result.
  pub call_real-result :
      (kind : MsgCode) (size : ℕ) (success : Bool) (p old a : ℕ) (trace acc : List ℕ) (w : Wrapper)
      → 10 ≤ code kind
      → code kind < 20
      → IsWord size
      → IsWord p
      → IsWord old
      → TraceFits trace
      → IsRunning acc w
      → Ends
          (HasSent acc (when success (Said.memory (code kind) size p old)))
          (forget (with_result a (call_real env kind size success p old trace w)))
  call_real-result kind size success p old a trace acc w low high fs fp fo ft b =
      forget-Ends (HasSent acc (when success (Said.memory (code kind) size p old))) a
        (call_real env kind size success p old trace w)
        (call_real-HasSent kind size success p old trace acc w low high fs fp fo ft b)
