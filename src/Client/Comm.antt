-- ===== src/Client/Comm.antt =====
-- lib/server-comm.c: the connection to the server, its buffers and the making of messages. The
-- transfer mode is the named pipe, as config.h sets it, with `BUFFERIZE_TRANSFERT`.
pub mod Ends
pub mod Buffer
use aleakd.Base.{
  ℕ, zero, suc, ◌+◌, ◌≤◌, ◌<◌, ◌≡◌, Bool, true, false, not, Option, none, some, List, [], ◌∷◌, ◌++◌,
  ltb, leb, ◌==◌, if◌then◌else◌, length, take, replicate, add32, arith,
}
use aleakd.Shared.Codes.{MsgCode, code}
use aleakd.Shared.Messages.{
  Header, MemoryData, ThreadData, BacktraceData, SymbolInfosData, Message, message_bytes,
  backtrace_max_size,
}

-- `BUFFER_SIZE`
abbrev pub buffer_size : ℕ
buffer_size = 4096

-- The globals of the file. `opened` is whether `g_socket` is not -1, `sent` is every buffer that was
-- handed to `write`, in order, and the two buffers hold the bytes up to their positions.
pub record Comm : Type 0 where
  pub initialized : Bool
  pub opened : Bool
  pub msg_num : ℕ
  pub transfer_enabled : Bool
  pub transfer_buffer : List ℕ
  pub pre_init_buffer : List ℕ
  pub sent : List (List ℕ)

-- The state before the library has done anything.
abbrev pub new_comm : Comm
new_comm = record {
  initialized = false;
  opened = false;
  msg_num = 0;
  transfer_enabled = false;
  transfer_buffer = [];
  pre_init_buffer = [];
  sent = [];
}

-- What a function leaves, unless it has written past the end of an array, called a function that was
-- not found, or ended the program.
pub data Run (A : Type 0) : Type 0 where
  done : A → Run A
  overflow crashed exited : Run A

infixl 5 ◌>>=◌
abbrev pub ◌>>=◌ : {A B : Type 0} → Run A → (A → Run B) → Run B
done c >>= f = f c
overflow >>= f = overflow
crashed >>= f = crashed
exited >>= f = exited

-- `servercomm_send_physical`. Its result is not used where it is called.
unfoldable pub send_physical : List ℕ → Comm → Comm
send_physical bs c = record c { sent = c.sent ++ bs ∷ [] }

-- `memcpy` to the end of a buffer of `buffer_size` bytes.
abbrev pub append_to : List ℕ → List ℕ → (List ℕ → Comm) → Run Comm
append_to buffer bs k =
    if ltb buffer_size (length buffer + length bs) then overflow else done (k (buffer ++ bs))

-- `if (bSendBuffer)` in `servercomm_send`
unfoldable pub flush_if_full : ℕ → Comm → Comm
unfolding send_physical
flush_if_full size c =
    if leb buffer_size (length c.transfer_buffer + size)
    then record (send_physical c.transfer_buffer c) { transfer_buffer = [] }
    else c

-- `servercomm_send`
unfoldable pub send : List ℕ → Comm → Run Comm
unfolding send_physical flush_if_full
send bs c =
    let c' = flush_if_full (length bs) c in
    if c.transfer_enabled
    then append_to c'.transfer_buffer bs (λ buffer. record c' { transfer_buffer = buffer })
    else done (send_physical bs c)

-- `servercomm_send_safe`
unfoldable pub send_safe : List ℕ → Comm → Run Comm
unfolding send
send_safe bs c =
    if c.opened
    then send bs c
    else append_to c.pre_init_buffer bs (λ buffer. record c { pre_init_buffer = buffer })

-- `servercomm_dispose`. The position in the transfer buffer is not reset.
unfoldable pub dispose : Comm → Comm
unfolding send_physical
dispose c =
    let flushed =
      if c.transfer_enabled
      then record (send_physical c.transfer_buffer c) { transfer_enabled = false }
      else c in
    if c.opened then record flushed { initialized = false } else c

-- What `servercomm_msg_header_init_v1` reads from the system: the time and the thread.
pub record Now : Type 0 where
  pub time_sec : ℕ
  pub time_usec : ℕ
  pub thread_id : ℕ

-- `servercomm_msg_header_init_v1`
unfoldable pub header_init : Now → Comm → Header × Comm
header_init now c =
    let n = add32 c.msg_num 1 in
    (
      record {
        time_sec = now.time_sec;
        time_usec = now.time_usec;
        thread_id = now.thread_id;
        msg_num = n;
        msg_code = code MsgCode.init;
      },
      record c { msg_num = n },
    )

-- A file descriptor as `open` gives it, none for -1.
unfoldable pub is_open : Option ℕ → Bool
is_open none = false
is_open (some fd) = true

unfoldable pub is_positive : Option ℕ → Bool
is_positive none = false
is_positive (some fd) = ltb 0 fd

-- `servercomm_name_pipe`: `found` is whether the pipe's file is there, `fd` what `open` gives for it.
-- The result is whether it is 0.
unfoldable pub name_pipe : Bool → Option ℕ → Comm → Bool × Comm
unfolding is_open is_positive
name_pipe found fd c =
    if found then (is_positive fd, record c { opened = is_open fd }) else (false, c)

-- "Send some data" in `servercomm_init`
unfoldable pub send_pre_init : Comm → Run Comm
unfolding send
send_pre_init c =
    let sent = send c.pre_init_buffer c >>= λ c'. done (record c' { pre_init_buffer = [] }) in
    if ltb 0 (length c.pre_init_buffer) then sent else done c

-- The messages of `servercomm_init`, once the pipe is open.
unfoldable pub send_first : Now → Comm → Run Comm
unfolding header_init send_safe send_pre_init
send_first now c =
    let (h, c') = header_init now c in
    send_safe (message_bytes (Message.app h)) c' >>= send_pre_init

abbrev enable : Comm → Run Comm
enable c = done (record c { transfer_enabled = true; initialized = true })

-- `servercomm_init`, with whether its result is 0.
unfoldable pub init : Bool → Option ℕ → Now → Comm → Bool × Run Comm
unfolding name_pipe send_first
init found fd now c =
    let (ok, c') = name_pipe found fd c in
    (ok, (if ok then send_first now c' else done c') >>= enable)
