-- ===== src/Client/Wrapper/Reports.antt =====
-- What a report of lib/wrapper.c sends: the message of the call, its backtrace, and the symbols of the
-- addresses that are new.
use aleakd.Client.Comm.Ends.{Ends, Ends-map, Ends-then}
use aleakd.Base.{
  ℕ, zero, suc, ◌^◌, ◌≤◌, ◌<◌, ◌≡◌, refl, sym, subst, Bool, true, false, List, [], ◌∷◌, ◌++◌,
  append-nil, length, length-append, length-replicate, length-drop, drop, replicate, arith,
  if◌then◌else◌,
}
use aleakd.Shared.Codes.{MsgCode, code}
use aleakd.Shared.Wire.{AllBelow}
use aleakd.Shared.Messages.{
  Header, MemoryData, BacktraceData, Message, message_bytes, HeaderFits, MemoryFits, BacktraceFits,
}
use aleakd.Server.Process.Decode.{IsWellSent}
use aleakd.Server.Process.Stream.{stream}
use aleakd.Client.Comm.{Run, done, ◌>>=◌, header_init}
use aleakd.Client.Cache.{check_addr}
use aleakd.Client.Make.{memory_init, backtrace_init, backtrace_make, symbolinfos_init}
use aleakd.Client.Wrapper.{
  Env, Wrapper, send_message, send_symbol, send_symbols, backtrace_send, report, put_name, next_now,
}
use aleakd.Client.Wrapper.Sends.{
  Said, said_of, said, EnvFits, SymbolFits, IsRunning, HasSent, HasSent-then,
  send_message-IsRunning, header_init-HeaderFits,
}
use aleakd.Client.Wrapper.Names.{IsName, put_name-IsName}

-- One message, and what is sent behind it.
pub HasSent-message :
    (m : Message) (acc : List ℕ) (what : List Said) (w : Wrapper)
    → IsWellSent m
    → HasSent (acc ++ message_bytes m) what w
    → HasSent acc (said_of m ++ what) w
unfolding stream said
HasSent-message m acc what w well h =
    subst (λ l. HasSent acc (l ++ what) w) (append-nil (said_of m))
      (HasSent-then acc (m ∷ []) what w (well, tt)
        (subst (λ bs. HasSent (acc ++ bs) what w) (sym (append-nil (message_bytes m))) h))

pub HasSent-none : (acc : List ℕ) (w : Wrapper) → IsRunning acc w → HasSent acc [] w
unfolding stream said
HasSent-none acc w b = ([], tt, refl, subst (λ bs. IsRunning bs w) (sym (append-nil acc)) b)

AllBelow-append :
    (n : ℕ) (as' bs : List ℕ) → AllBelow n as' → AllBelow n bs → AllBelow n (as' ++ bs)
AllBelow-append n [] bs f g = g
AllBelow-append n (a ∷ as') bs f g = (f.0, AllBelow-append n as' bs f.1 g)

zeros_left : (n k m : ℕ) → 0 < n → AllBelow n (drop k (replicate m 0))
zeros_left n zero zero h = tt
zeros_left n zero (suc m) h = (h, zeros_left n zero m h)
zeros_left n (suc k) zero h = tt
zeros_left n (suc k) (suc m) h = zeros_left n k m h

backtrace_make-BacktraceFits :
    (addrs : List ℕ) (origin : ℕ)
    → AllBelow (2 ^ 64) addrs
    → length addrs ≤ 50
    → origin < 2 ^ 32
    → BacktraceFits (
        backtrace_make addrs
          (record { origin_msg_num = origin; backtrace_size = 0; list_addr = replicate 50 0 }))
unfolding backtrace_make
backtrace_make-BacktraceFits addrs origin small few h = record {
  origin_msg_num = h;
  backtrace_size = omega arith;
  list_addr =
      AllBelow-append (2 ^ 64) addrs (drop (length addrs) (replicate 50 0)) small
        (zeros_left (2 ^ 64) (length addrs) 50 (omega arith));
  array = omega (
    arith,
    length-append addrs (drop (length addrs) (replicate 50 0)),
    length-drop {A = ℕ} (length addrs) (replicate 50 0),
    length-replicate {A = ℕ} 50 0,
  );
}

module _ (env : Env) (fits : EnvFits env) where
  send_symbol-HasSent :
      (addr : ℕ) (acc : List ℕ) (w : Wrapper)
      → addr < 2 ^ 64
      → IsRunning acc w
      → Ends
          (λ w'.
            (m : Message) × IsWellSent m × (said_of m ≡ []) × IsRunning (acc ++ message_bytes m) w')
          (send_symbol env addr w)
  unfolding send_symbol symbolinfos_init header_init code said_of
  send_symbol-HasSent addr acc w small b =
      let s = env.symbol addr in
      let f : SymbolFits s = fits.symbol addr in
      let Q : Wrapper → Type 0 = λ w'.
        (m : Message) × IsWellSent m × (said_of m ≡ []) × IsRunning (acc ++ message_bytes m) w' in
      Ends-then (IsName 256) Q _ (put_name 256 s.object_name)
        (put_name-IsName 256 s.object_name (omega arith) f.object_name)
        λ object on.
          Ends-then (IsName 96) Q _ (put_name 96 s.symbol_name)
            (put_name-IsName 96 s.symbol_name (omega arith) f.symbol_name)
            λ symbol sn.
              let m : Message =
                Message.symbolinfos
                  (record (header_init (next_now env w) w.comm).0 { msg_code = 51 })
                  (record {
                    addr = addr;
                    object_name = object;
                    object_addr = s.object_addr;
                    symbol_name = symbol;
                    symbol_addr = s.symbol_addr;
                  }) in
              let well : IsWellSent m = (
                header_init-HeaderFits (next_now env w) w.comm 51 (fits.now _) (omega arith),
                record {
                  addr = small;
                  object_name = on.0;
                  object_addr = f.object_addr;
                  symbol_name = sn.0;
                  symbol_addr = f.symbol_addr;
                },
                omega arith,
                omega arith,
                on.1,
                sn.1,
              ) in
              Ends-map _ Q _
                (send_message-IsRunning m acc
                  (record w { comm = (header_init (next_now env w) w.comm).1 }) well b)
                λ w' b'. (m, well, refl, b')

  after_check :
      (addr : ℕ) (addrs acc : List ℕ) (known : Bool) (v : Wrapper)
      → addr < 2 ^ 64
      → IsRunning acc v
      → ((acc' : List ℕ) (v' : Wrapper)
          → IsRunning acc' v'
          → Ends (HasSent acc' []) (send_symbols env addrs v'))
      → Ends
          (HasSent acc [])
          ((if known then done v else send_symbol env addr v) >>= send_symbols env addrs)
  after_check addr addrs acc true v small b go = go acc v b
  after_check addr addrs acc false v small b go =
      Ends-then _ (HasSent acc []) (send_symbols env addrs) (send_symbol env addr v)
        (send_symbol-HasSent addr acc v small b)
        λ v' (m, well, silent, sent).
          Ends-map (HasSent (acc ++ message_bytes m) []) (HasSent acc []) _
            (go (acc ++ message_bytes m) v' sent)
            λ v'' h.
              subst (λ what. HasSent acc (what ++ []) v'') silent
                (HasSent-message m acc [] v'' well h)

  send_symbols-HasSent :
      (addrs : List ℕ) (acc : List ℕ) (w : Wrapper)
      → AllBelow (2 ^ 64) addrs
      → IsRunning acc w
      → Ends (HasSent acc []) (send_symbols env addrs w)
  unfolding send_symbols
  send_symbols-HasSent [] acc w small b = HasSent-none acc w b
  send_symbols-HasSent (addr ∷ addrs) acc w (small, smalls) b =
      after_check addr addrs acc (check_addr addr w.cache).0
        (record w { cache = (check_addr addr w.cache).1 }) small b
        λ acc' v' b'. send_symbols-HasSent addrs acc' v' smalls b'

  backtrace_send-HasSent :
      (addrs : List ℕ) (origin : ℕ) (acc : List ℕ) (w : Wrapper)
      → AllBelow (2 ^ 64) addrs
      → length addrs ≤ 50
      → origin < 2 ^ 32
      → IsRunning acc w
      → Ends (HasSent acc []) (backtrace_send env addrs origin w)
  unfolding backtrace_send backtrace_init header_init code backtrace_make said_of
  backtrace_send-HasSent addrs origin acc w small few h b =
      let d : BacktraceData =
        backtrace_make addrs
          (record { origin_msg_num = origin; backtrace_size = 0; list_addr = replicate 50 0 }) in
      let m : Message =
        Message.backtrace (record (header_init (next_now env w) w.comm).0 { msg_code = 41 }) d in
      let well : IsWellSent m = (
        header_init-HeaderFits (next_now env w) w.comm 41 (fits.now _) (omega arith),
        backtrace_make-BacktraceFits addrs origin small few h,
        omega arith,
        omega arith,
        few,
      ) in
      Ends-then (λ v. IsRunning (acc ++ message_bytes m) v) (HasSent acc [])
        (send_symbols env addrs)
        (send_message m (record w { comm = (header_init (next_now env w) w.comm).1 }))
        (send_message-IsRunning m acc (record w { comm = (header_init (next_now env w) w.comm).1 })
          well b)
        λ v bv.
          Ends-map (HasSent (acc ++ message_bytes m) []) (HasSent acc []) _
            (send_symbols-HasSent addrs (acc ++ message_bytes m) v small bv)
            λ v' s. HasSent-message m acc [] v' well s

  -- A report of the library, whatever it had sent before: what it sends are whole messages as the
  -- server reads them, and they say what the call did.
  pub report-HasSent :
      (kind : MsgCode) (d : MemoryData) (trace acc : List ℕ) (w : Wrapper)
      → 10 ≤ code kind
      → code kind < 20
      → MemoryFits d
      → AllBelow (2 ^ 64) trace
      → length trace ≤ 50
      → IsRunning acc w
      → Ends
          (HasSent acc (Said.memory (code kind) d.alloc_size d.alloc_ptr d.free_ptr ∷ []))
          (report env kind d trace w)
  unfolding report memory_init header_init said_of
  report-HasSent kind d trace acc w low high df small few b =
      let h : Header = record (header_init (next_now env w) w.comm).0 { msg_code = code kind } in
      let m : Message = Message.memory h d in
      let hf : HeaderFits h =
        header_init-HeaderFits (next_now env w) w.comm (code kind) (fits.now _) (omega arith) in
      let well : IsWellSent m = (hf, df, low, high) in
      let Q : Wrapper → Type 0 = HasSent acc (said_of m) in
      let behind : (v : Wrapper) → HasSent (acc ++ message_bytes m) [] v → Q v =
        λ v s. HasSent-message m acc [] v well s in
      Ends-then (IsRunning (acc ++ message_bytes m)) Q _
        (send_message m (record w { comm = (header_init (next_now env w) w.comm).1 }))
        (send_message-IsRunning m acc (record w { comm = (header_init (next_now env w) w.comm).1 })
          well b)
        λ v bv. traced v v.send_backtrace Q _ (behind v (HasSent-none _ v bv)) (
          Ends-map (HasSent (acc ++ message_bytes m) []) Q _
            (backtrace_send-HasSent trace h.msg_num (acc ++ message_bytes m) v small few hf.msg_num
              bv)
            behind)
    where
      traced :
          (v : Wrapper) (on : Bool) (Q : Wrapper → Type 0) (r : Run Wrapper)
          → Q v
          → Ends Q r
          → Ends Q (if on then r else done v)
      traced v true Q r q e = e
      traced v false Q r q e = q
