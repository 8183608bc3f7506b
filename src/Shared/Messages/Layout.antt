-- ===== src/Shared/Messages/Layout.antt =====
-- The layout of the structures of shared/server-msg.h: their sizes, and that a structure read
-- from the front of a buffer is the one written there.
use aleakd.Base.{
  drop-append, length-drop, ◌-◌, drop, ◌≤◌, ℕ, ◌≡◌, sym, List, ◌++◌, append_assoc, length,
  length-append, take-append_exact, drop-append_exact, arith,
}
use aleakd.Shared.Wire.{
  read_le-append, length-le_bytes, read_le-le_bytes, drop-le_bytes, length-le_array,
  read_array-le_array,
}
use aleakd.Shared.Messages.{
  Header, MemoryData, ThreadData, BacktraceData, SymbolInfosData, HeaderFits, MemoryFits,
  ThreadFits, BacktraceFits, SymbolInfosFits, header_bytes, memory_bytes, thread_bytes,
  backtrace_bytes, symbolinfos_bytes, read_header, read_memory, read_thread, read_backtrace,
  read_symbolinfos, header_size, memory_data_size, thread_data_size, backtrace_data_size,
  symbolinfos_data_size, backtrace_max_size,
}

ruleset lengths = (length-append, length-le_bytes)

pub length-header_bytes : (h : Header) → length (header_bytes h) ≡ header_size
unfolding header_bytes
length-header_bytes h = simp lengths (omega arith)

pub length-memory_bytes : (d : MemoryData) → length (memory_bytes d) ≡ memory_data_size
unfolding memory_bytes
length-memory_bytes d = simp lengths (omega arith)

pub length-thread_bytes :
    (d : ThreadData) → ThreadFits d → length (thread_bytes d) ≡ thread_data_size
unfolding thread_bytes
length-thread_bytes d f = simp lengths (omega arith)

pub length-backtrace_bytes :
    (d : BacktraceData) → BacktraceFits d → length (backtrace_bytes d) ≡ backtrace_data_size
unfolding backtrace_bytes
length-backtrace_bytes d f = simp lengths (omega (arith, length-le_array d.list_addr))

pub length-symbolinfos_bytes :
    (d : SymbolInfosData) → SymbolInfosFits d → length (symbolinfos_bytes d) ≡ symbolinfos_data_size
unfolding symbolinfos_bytes
length-symbolinfos_bytes d f = simp lengths (omega arith)

pub read_header-bytes :
    (h : Header) (rest : List ℕ) → HeaderFits h → read_header (header_bytes h ++ rest) ≡ h
unfolding read_header header_bytes
read_header-bytes h rest f = simp (
  append_assoc,
  drop-le_bytes,
  read_le-le_bytes 8 h.time_sec _ f.time_sec,
  read_le-le_bytes 8 h.time_usec _ f.time_usec,
  read_le-le_bytes 8 h.thread_id _ f.thread_id,
  read_le-le_bytes 4 h.msg_num _ f.msg_num,
  read_le-le_bytes 1 h.msg_code _ f.msg_code,
)

pub read_memory-bytes :
    (d : MemoryData) (rest : List ℕ) → MemoryFits d → read_memory (memory_bytes d ++ rest) ≡ d
unfolding read_memory memory_bytes
read_memory-bytes d rest f = simp (
  append_assoc,
  drop-le_bytes,
  read_le-le_bytes 8 d.alloc_size _ f.alloc_size,
  read_le-le_bytes 8 d.alloc_ptr _ f.alloc_ptr,
  read_le-le_bytes 4 d.alloc_num _ f.alloc_num,
  read_le-le_bytes 8 d.free_ptr _ f.free_ptr,
)

pub read_thread-bytes :
    (d : ThreadData) (rest : List ℕ) → ThreadFits d → read_thread (thread_bytes d ++ rest) ≡ d
unfolding read_thread thread_bytes
read_thread-bytes d rest f = simp (
  append_assoc,
  drop-le_bytes,
  read_le-le_bytes 8 d.thread_id _ f.thread_id,
  take-append_exact 24 d.thread_name _ (sym f.thread_name),
)

-- The data of a backtrace whose fields fit their types, read from the bytes it is sent as, is the
-- data, whatever follows.
pub read_backtrace-bytes :
    (d : BacktraceData) (rest : List ℕ)
    → BacktraceFits d
    → read_backtrace (backtrace_bytes d ++ rest) ≡ d
unfolding read_backtrace backtrace_bytes
read_backtrace-bytes d rest f = simp (
  append_assoc,
  drop-le_bytes,
  read_le-le_bytes 4 d.origin_msg_num _ f.origin_msg_num,
  read_le-le_bytes 1 d.backtrace_size _ f.backtrace_size,
  read_array-le_array backtrace_max_size d.list_addr rest f.array f.list_addr,
)

pub read_symbolinfos-bytes :
    (d : SymbolInfosData) (rest : List ℕ)
    → SymbolInfosFits d
    → read_symbolinfos (symbolinfos_bytes d ++ rest) ≡ d
unfolding read_symbolinfos symbolinfos_bytes
read_symbolinfos-bytes d rest f = simp (
  append_assoc,
  drop-le_bytes,
  read_le-le_bytes 8 d.addr _ f.addr,
  take-append_exact 256 d.object_name _ (sym f.object_name),
  drop-append_exact 256 d.object_name _ (sym f.object_name),
  read_le-le_bytes 8 d.object_addr _ f.object_addr,
  take-append_exact 96 d.symbol_name _ (sym f.symbol_name),
  drop-append_exact 96 d.symbol_name _ (sym f.symbol_name),
  read_le-le_bytes 8 d.symbol_addr (rest) f.symbol_addr,
)

-- The header of a buffer depends on its first 29 bytes only.
pub read_header-append : (p q : List ℕ) → 29 ≤ length p → read_header (p ++ q) ≡ read_header p
unfolding read_header
read_header-append p q le = rw (
  drop-append 8 p q (omega arith),
  drop-append 8 p1 q (omega (arith, l1)),
  drop-append 8 p2 q (omega (arith, l1, l2)),
  drop-append 4 p3 q (omega (arith, l1, l2, l3)),
  read_le-append 8 p q (omega arith),
  read_le-append 8 p1 q (omega (arith, l1)),
  read_le-append 8 p2 q (omega (arith, l1, l2)),
  read_le-append 4 p3 q (omega (arith, l1, l2, l3)),
  read_le-append 1 p4 q (omega (arith, l1, l2, l3, l4)),
)
  where
    p1 : List ℕ
    p1 = drop 8 p

    p2 : List ℕ
    p2 = drop 8 p1

    p3 : List ℕ
    p3 = drop 8 p2

    p4 : List ℕ
    p4 = drop 4 p3

    l1 : length p1 ≡ length p - 8
    l1 = length-drop 8 p

    l2 : length p2 ≡ length p1 - 8
    l2 = length-drop 8 p1

    l3 : length p3 ≡ length p2 - 8
    l3 = length-drop 8 p2

    l4 : length p4 ≡ length p3 - 4
    l4 = length-drop 4 p3
