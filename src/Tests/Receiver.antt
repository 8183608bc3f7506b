-- ===== src/Tests/Receiver.antt =====
-- The receiver of server/Server and the messages of shared, at concrete data.
use aleakd.Shared.Wire.{AllBelow}
use aleakd.Base.{
  length-replicate, ◌^◌, some, ℕ, zero, suc, ◌<◌, ◌≡◌, refl, pos, List, [], ◌∷◌, ◌++◌, length,
  replicate, arith,
}
use aleakd.Shared.Messages.{
  Header, MemoryData, BacktraceData, Message, message_bytes, HeaderFits, BacktraceFits,
}
use aleakd.Shared.Hex.{from_hex, to_hex_string, from_hex-to_hex_string}
use aleakd.Server.Handler.{Server}
use aleakd.Server.Process.{returned, process_msg, process_data_read}
use aleakd.Server.Process.Decode.{IsWellSent, deliver}
use aleakd.Server.Process.Decode.Reply.{process_msg-message_bytes}
use aleakd.Server.Process.Bounds.{TakesUpTo, Leaves, process_msg_bounds, process_data_read_bounds}
use aleakd.Server.Process.Stream.{
  stream, handle_all, AllWellSent, process_data_read-messages, process_data_read-held_backtrace,
}
use aleakd.Server.Reader.{bytes, failed, do_read_msg}
use aleakd.Server.Reader.Buffer.{EndsSafely, do_read_msg_safe}
use aleakd.Controller.State.{Controller, new_controller, controller_handler}

abbrev pub a_server : Server Controller
a_server = record {
  msg_count = 5;
  handler = some controller_handler;
  handler_state = new_controller;
}

abbrev pub a_header : ℕ → Header
a_header c = record { time_sec = 7; time_usec = 8; thread_id = 140000; msg_num = 3; msg_code = c }

abbrev pub a_malloc : MemoryData
a_malloc = record { alloc_size = 16; alloc_ptr = 4096; alloc_num = 1; free_ptr = 0 }

abbrev pub a_free : MemoryData
a_free = record { alloc_size = 0; alloc_ptr = 0; alloc_num = 0; free_ptr = 4096 }

abbrev pub a_trace : BacktraceData
a_trace = record { origin_msg_num = 3; backtrace_size = 2; list_addr = 500 ∷ 600 ∷ replicate 48 0 }

fits : (c : ℕ) → c < 2 ^ 8 → HeaderFits (a_header c)
fits c h = record {
  time_sec = omega arith;
  time_usec = omega arith;
  thread_id = omega arith;
  msg_num = omega arith;
  msg_code = h;
}

abbrev pub malloc_msg : Message
malloc_msg = Message.memory (a_header 11) a_malloc

abbrev pub free_msg : Message
free_msg = Message.memory (a_header 12) a_free

abbrev pub trace_msg : Message
trace_msg = Message.backtrace (a_header 41) a_trace

pub malloc_msg-IsWellSent : IsWellSent malloc_msg
malloc_msg-IsWellSent = (
  fits 11 (omega arith),
  record {
    alloc_size = omega arith;
    alloc_ptr = omega arith;
    alloc_num = omega arith;
    free_ptr = omega arith;
  },
  omega arith,
  omega arith,
)

free_msg-IsWellSent : IsWellSent free_msg
free_msg-IsWellSent = (
  fits 12 (omega arith),
  record {
    alloc_size = omega arith;
    alloc_ptr = omega arith;
    alloc_num = omega arith;
    free_ptr = omega arith;
  },
  omega arith,
  omega arith,
)

zeros_below : (n : ℕ) → AllBelow (2 ^ 64) (replicate n 0)
zeros_below zero = tt
zeros_below (suc n) = (omega arith, zeros_below n)

a_trace-BacktraceFits : BacktraceFits a_trace
a_trace-BacktraceFits = record {
  origin_msg_num = omega arith;
  backtrace_size = omega arith;
  list_addr = (omega arith, (omega arith, zeros_below 48));
  array = refl;
}

pub trace_msg-IsWellSent : IsWellSent trace_msg
trace_msg-IsWellSent =
    (fits 41 (omega arith), a_trace-BacktraceFits, omega arith, omega arith, omega arith)

abbrev pub two_msgs : List Message
two_msgs = malloc_msg ∷ free_msg ∷ []

pub two_msgs-AllWellSent : AllWellSent two_msgs
two_msgs-AllWellSent = (malloc_msg-IsWellSent, (free_msg-IsWellSent, tt))

process_msg-message_bytes_example :
    process_msg a_server (message_bytes malloc_msg ++ 1 ∷ 0 ∷ [])
    ≡ returned (pos 59) (deliver malloc_msg a_server)
process_msg-message_bytes_example =
    process_msg-message_bytes a_server malloc_msg (1 ∷ 0 ∷ []) malloc_msg-IsWellSent

process_data_read-messages_example :
    process_data_read a_server (stream two_msgs)
    ≡ returned (pos (length (stream two_msgs))) (handle_all two_msgs a_server)
process_data_read-messages_example =
    process_data_read-messages two_msgs a_server two_msgs-AllWellSent (omega arith)

process_data_read-held_backtrace_example :
    process_data_read a_server (stream two_msgs ++ message_bytes trace_msg)
    ≡ returned (pos (length (stream two_msgs))) (handle_all two_msgs a_server)
process_data_read-held_backtrace_example =
    process_data_read-held_backtrace two_msgs a_server two_msgs-AllWellSent (a_header 41) a_trace
      trace_msg-IsWellSent

process_msg_bounds_example :
    TakesUpTo 31 467 (1 ∷ 0 ∷ 9 ∷ []) (process_msg a_server (1 ∷ 0 ∷ 9 ∷ []))
process_msg_bounds_example = process_msg_bounds a_server (1 ∷ 0 ∷ 9 ∷ [])

process_data_read_bounds_example :
    Leaves 0 (1 ∷ 0 ∷ 9 ∷ []) (process_data_read a_server (1 ∷ 0 ∷ 9 ∷ []))
process_data_read_bounds_example = process_data_read_bounds a_server (1 ∷ 0 ∷ 9 ∷ [])

do_read_msg_safe_example :
    EndsSafely 932 (do_read_msg a_server (bytes (replicate 940 1) ∷ failed ∷ []))
do_read_msg_safe_example = do_read_msg_safe 932 a_server (bytes (replicate 940 1) ∷ failed ∷ []) (
  omega (arith, length-replicate {A = ℕ} 940 1),
  omega (arith, length-replicate {A = ℕ} 940 1),
  tt,
)

from_hex-to_hex_string_example : from_hex (to_hex_string (171 ∷ 9 ∷ [])) ≡ some (171 ∷ 9 ∷ [])
from_hex-to_hex_string_example =
    from_hex-to_hex_string 171 (9 ∷ []) (omega arith, (omega arith, tt))
