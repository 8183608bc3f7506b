-- ===== src/Client/Wrapper/Sends.antt =====
-- What the functions of lib/wrapper.c send: whole messages as the server reads them, one behind the
-- other.
use aleakd.Client.Comm.Ends.{Ends, Ends-then}
use aleakd.Base.{
  false, true, ℕ, ◌^◌, ◌≤◌, ◌<◌, ◌≡◌, refl, sym, ap, ◌∙◌, subst, Option, none, some, List, [], ◌∷◌,
  ◌++◌, append_assoc, length, arith,
}
use aleakd.Shared.Messages.{Message, message_bytes, HeaderFits}
use aleakd.Server.Process.Decode.{IsWellSent, length-message_bytes, msg_size}
use aleakd.Server.Process.Stream.{stream, AllWellSent}
use aleakd.Client.Comm.{Now, Comm, header_init}
use aleakd.Client.Comm.Buffer.{IsBuffering, send_safe-IsBuffering}
use aleakd.Client.Wrapper.{Env, Symbol, Wrapper, send_message}

pub record NowFits (now : Now) : Type 0 where
  pub time_sec : now.time_sec < 2 ^ 64
  pub time_usec : now.time_usec < 2 ^ 64
  pub thread_id : now.thread_id < 2 ^ 64

-- A name that leaves room for a closing 0 in an array of `n` bytes.
abbrev pub NameFits : ℕ → Option (List ℕ) → Type 0
NameFits n none = Unit {0}
NameFits n (some bs) = length bs < n

pub record SymbolFits (s : Symbol) : Type 0 where
  pub object_name : NameFits 256 s.object_name
  pub object_addr : s.object_addr < 2 ^ 64
  pub symbol_name : NameFits 96 s.symbol_name
  pub symbol_addr : s.symbol_addr < 2 ^ 64

pub record EnvFits (env : Env) : Type 0 where
  pub now : (n : ℕ) → NowFits (env.now n)
  pub symbol : (addr : ℕ) → SymbolFits (env.symbol addr)

-- The library has started and is connected, and `bs` has been sent.
abbrev pub IsRunning : List ℕ → Wrapper → Type 0
IsRunning bs w = IsBuffering bs w.comm × (w.resolved ≡ true) × (w.is_backtrace_initializing ≡ false)

-- What the messages say of the program: an operation on memory, with its code, the size and the pointer
-- it gave and the one it ended, or one on threads, with the id and the name.
pub data Said : Type 0 where
  memory : ℕ → ℕ → ℕ → ℕ → Said
  thread : ℕ → ℕ → List ℕ → Said

unfoldable pub said_of : Message → List Said
said_of (Message.memory h d) = memory h.msg_code d.alloc_size d.alloc_ptr d.free_ptr ∷ []
said_of (Message.thread h d) = thread h.msg_code d.thread_id d.thread_name ∷ []
said_of _ = []

unfoldable pub said : List Message → List Said
unfolding said_of
said [] = []
said (m ∷ ms) = said_of m ++ said ms

-- Whole messages were sent behind `acc`, and this is what they say.
abbrev pub HasSent : List ℕ → List Said → Wrapper → Type 0
HasSent acc what w =
    (ms : List Message) × AllWellSent ms × (said ms ≡ what) × IsRunning (acc ++ stream ms) w

msg_size-le : (m : Message) → msg_size m ≤ 4096
msg_size-le (Message.app h) = omega arith
msg_size-le (Message.memory h d) = omega arith
msg_size-le (Message.thread h d) = omega arith
msg_size-le (Message.backtrace h d) = omega arith
msg_size-le (Message.symbolinfos h d) = omega arith

pub stream-append : (ms ns : List Message) → stream (ms ++ ns) ≡ stream ms ++ stream ns
unfolding stream
stream-append [] ns = refl
stream-append (m ∷ ms) ns =
    ap (◌++◌ (message_bytes m)) (stream-append ms ns)
    ∙ sym (append_assoc (message_bytes m) (stream ms) (stream ns))

pub AllWellSent-append :
    (ms ns : List Message) → AllWellSent ms → AllWellSent ns → AllWellSent (ms ++ ns)
AllWellSent-append [] ns w v = v
AllWellSent-append (m ∷ ms) ns w v = (w.0, AllWellSent-append ms ns w.1 v)

pub said-append : (ms ns : List Message) → said (ms ++ ns) ≡ said ms ++ said ns
unfolding said
said-append [] ns = refl
said-append (m ∷ ms) ns =
    ap (◌++◌ (said_of m)) (said-append ms ns) ∙ sym (append_assoc (said_of m) (said ms) (said ns))

-- Messages behind messages.
pub HasSent-then :
    (acc : List ℕ) (ms : List Message) (what : List Said) (w : Wrapper)
    → AllWellSent ms
    → HasSent (acc ++ stream ms) what w
    → HasSent acc (said ms ++ what) w
HasSent-then acc ms what w sent (ns, more, e, b) = (
  ms ++ ns,
  AllWellSent-append ms ns sent more,
  said-append ms ns ∙ ap (◌++◌ (said ms)) e,
  subst (λ bs. IsRunning bs w)
      (append_assoc acc (stream ms) (stream ns) ∙ ap (◌++◌ acc) (sym (stream-append ms ns))) b,
)

-- A message comes behind what was sent.
pub send_message-IsRunning :
    (m : Message) (acc : List ℕ) (w : Wrapper)
    → IsWellSent m
    → IsRunning acc w
    → Ends (IsRunning (acc ++ message_bytes m)) (send_message m w)
unfolding send_message
send_message-IsRunning m acc w well (b, found, quiet) =
    Ends-then (IsBuffering (acc ++ message_bytes m)) _ _ _
      (send_safe-IsBuffering (message_bytes m) acc w.comm
        (omega (arith, length-message_bytes m well, msg_size-le m)) b)
      λ c bc. (bc, found, quiet)

-- The header of a message that is made.
pub header_init-HeaderFits :
    (now : Now) (c : Comm) (k : ℕ)
    → NowFits now
    → k < 2 ^ 8
    → HeaderFits (record (header_init now c).0 { msg_code = k })
unfolding header_init
header_init-HeaderFits now c k f small = record {
  time_sec = f.time_sec;
  time_usec = f.time_usec;
  thread_id = f.thread_id;
  msg_num = omega arith;
  msg_code = small;
}
