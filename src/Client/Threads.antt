-- ===== src/Client/Threads.antt =====
-- lib/wrapper.c: the functions on threads.
use aleakd.Base.{
  ℕ, ◌-◌, Bool, Option, none, some, List, ◌++◌, ◌==◌, if◌then◌else◌, length, take, replicate,
}
use aleakd.Shared.Codes.{MsgCode, code}
use aleakd.Shared.Messages.{Message}
use aleakd.Client.Comm.{Run, done}
use aleakd.Client.Make.{thread_init}
use aleakd.Client.Wrapper.{Env, Wrapper, next_now, send_message}

-- `strncpy` of at most 24 bytes of a name to the array of 24 zeros.
unfoldable pub thread_name : List ℕ → List ℕ
thread_name name = take 24 name ++ replicate (24 - length name) 0

-- The message that the three functions send.
unfoldable pub report_thread : Env → MsgCode → ℕ → List ℕ → Wrapper → Run Wrapper
unfolding thread_init send_message
report_thread env kind id name w =
    let ((h, d), c) = thread_init (next_now env w) w.comm in
    send_message
      (Message.thread (record h { msg_code = code kind })
        (record d { thread_id = id; thread_name = name }))
      (record w { comm = c })

-- `pthread_create`, with what it finds behind `thread`, unless that is a null pointer. The result of the
-- real function is not looked at.
unfoldable pub pthread_create : Env → Option ℕ → Wrapper → Run Wrapper
unfolding report_thread
pthread_create env none w = done w
pthread_create env (some id) w = report_thread env MsgCode.pthread_create id (replicate 24 0) w

-- `pthread_setname_np`
unfoldable pub pthread_setname_np : Env → ℕ → List ℕ → Wrapper → Run Wrapper
unfolding report_thread thread_name
pthread_setname_np env id name w =
    let reported = report_thread env MsgCode.pthread_set_name id (thread_name name) w in
    if id == 0 then done w else reported

-- `prctl`: `success` is whether the real one gives no negative number, `name` the name for the option
-- `PR_SET_NAME`.
unfoldable pub prctl : Env → Bool → Option (List ℕ) → Wrapper → Run Wrapper
unfolding report_thread thread_name
prctl env success none w = done w
prctl env success (some name) w =
    let reported =
      report_thread env MsgCode.pthread_set_name (next_now env w).thread_id (thread_name name) w in
    if success then reported else done w
