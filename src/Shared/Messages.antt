-- ===== src/Shared/Messages.antt =====
-- The message structures of shared/server-msg.h, with their packed layout.
pub mod Layout
use aleakd.Base.{ℕ, ◌^◌, ◌<◌, ◌≡◌, List, [], ◌++◌, length, take, drop}
use aleakd.Shared.Codes.{msg_version}
use aleakd.Shared.Wire.{le_bytes, read_le, le_array, read_array, AllBelow}

-- `struct ServerMsgHeaderV1`
pub record Header : Type 0 where
  pub time_sec : ℕ
  pub time_usec : ℕ
  pub thread_id : ℕ
  pub msg_num : ℕ
  pub msg_code : ℕ

-- `struct ServerMsgMemoryDataV1`
pub record MemoryData : Type 0 where
  pub alloc_size : ℕ
  pub alloc_ptr : ℕ
  pub alloc_num : ℕ
  pub free_ptr : ℕ

-- `struct ServerMsgThreadDataV1`; the name is the 24 bytes of the array.
pub record ThreadData : Type 0 where
  pub thread_id : ℕ
  pub thread_name : List ℕ

-- `struct ServerMsgBacktraceDataV1`, with `BACKTRACE_MAX_SIZE` addresses.
pub record BacktraceData : Type 0 where
  pub origin_msg_num : ℕ
  pub backtrace_size : ℕ
  pub list_addr : List ℕ

-- `struct ServerMsgSymbolInfosDataV1`, with the bytes of its two arrays.
pub record SymbolInfosData : Type 0 where
  pub addr : ℕ
  pub object_name : List ℕ
  pub object_addr : ℕ
  pub symbol_name : List ℕ
  pub symbol_addr : ℕ

-- A message: `ServerMsgAppV1`, `ServerMsgMemoryV1`, `ServerMsgThreadV1`, `ServerMsgBacktraceV1`
-- or `ServerMsgSymbolInfosV1`, after its `msg_version`.
pub data Message : Type 0 where
  app : Header → Message
  memory : Header → MemoryData → Message
  thread : Header → ThreadData → Message
  backtrace : Header → BacktraceData → Message
  symbolinfos : Header → SymbolInfosData → Message

-- The values of `sizeof`.
abbrev pub version_size : ℕ
version_size = 2

abbrev pub header_size : ℕ
header_size = 29

abbrev pub memory_data_size : ℕ
memory_data_size = 28

abbrev pub thread_data_size : ℕ
thread_data_size = 32

abbrev pub backtrace_data_size : ℕ
backtrace_data_size = 405

-- `sizeof(ServerMsgBacktraceV1)`
abbrev pub backtrace_msg_size : ℕ
backtrace_msg_size = 436

abbrev pub symbolinfos_data_size : ℕ
symbolinfos_data_size = 376

abbrev pub backtrace_max_size : ℕ
backtrace_max_size = 50

-- The structures in memory.
unfoldable pub header_bytes : Header → List ℕ
header_bytes h =
    le_bytes 8 h.time_sec
    ++ (le_bytes 8 h.time_usec
        ++ (le_bytes 8 h.thread_id ++ (le_bytes 4 h.msg_num ++ le_bytes 1 h.msg_code)))

pub memory_bytes : MemoryData → List ℕ
memory_bytes d =
    le_bytes 8 d.alloc_size
    ++ (le_bytes 8 d.alloc_ptr ++ (le_bytes 4 d.alloc_num ++ le_bytes 8 d.free_ptr))

pub thread_bytes : ThreadData → List ℕ
thread_bytes d = le_bytes 8 d.thread_id ++ d.thread_name

pub backtrace_bytes : BacktraceData → List ℕ
backtrace_bytes d =
    le_bytes 4 d.origin_msg_num ++ (le_bytes 1 d.backtrace_size ++ le_array d.list_addr)

pub symbolinfos_bytes : SymbolInfosData → List ℕ
symbolinfos_bytes d =
    le_bytes 8 d.addr
    ++ (d.object_name ++ (le_bytes 8 d.object_addr ++ (d.symbol_name ++ le_bytes 8 d.symbol_addr)))

unfoldable pub data_bytes : Message → List ℕ
data_bytes (app h) = []
data_bytes (memory h d) = memory_bytes d
data_bytes (thread h d) = thread_bytes d
data_bytes (backtrace h d) = backtrace_bytes d
data_bytes (symbolinfos h d) = symbolinfos_bytes d

pub header : Message → Header
header (app h) = h
header (memory h d) = h
header (thread h d) = h
header (backtrace h d) = h
header (symbolinfos h d) = h

-- The bytes that the client hands to `servercomm_send_safe` for a message.
unfoldable pub message_bytes : Message → List ℕ
unfolding header data_bytes
message_bytes m = le_bytes version_size msg_version ++ (header_bytes (header m) ++ data_bytes m)

-- `memcpy` of a structure out of a buffer that holds enough bytes.
pub read_header : List ℕ → Header
read_header bs =
    let b1 = drop 8 bs in
    let b2 = drop 8 b1 in
    let b3 = drop 8 b2 in
    let b4 = drop 4 b3 in
    record {
      time_sec = read_le 8 bs;
      time_usec = read_le 8 b1;
      thread_id = read_le 8 b2;
      msg_num = read_le 4 b3;
      msg_code = read_le 1 b4;
    }

pub read_memory : List ℕ → MemoryData
read_memory bs =
    let b1 = drop 8 bs in
    let b2 = drop 8 b1 in
    let b3 = drop 4 b2 in
    record {
      alloc_size = read_le 8 bs;
      alloc_ptr = read_le 8 b1;
      alloc_num = read_le 4 b2;
      free_ptr = read_le 8 b3;
    }

pub read_thread : List ℕ → ThreadData
read_thread bs = record { thread_id = read_le 8 bs; thread_name = take 24 (drop 8 bs) }

pub read_backtrace : List ℕ → BacktraceData
read_backtrace bs =
    let b1 = drop 4 bs in
    let b2 = drop 1 b1 in
    record {
      origin_msg_num = read_le 4 bs;
      backtrace_size = read_le 1 b1;
      list_addr = read_array backtrace_max_size b2;
    }

pub read_symbolinfos : List ℕ → SymbolInfosData
read_symbolinfos bs =
    let b1 = drop 8 bs in
    let b2 = drop 256 b1 in
    let b3 = drop 8 b2 in
    let b4 = drop 96 b3 in
    record {
      addr = read_le 8 bs;
      object_name = take 256 b1;
      object_addr = read_le 8 b2;
      symbol_name = take 96 b3;
      symbol_addr = read_le 8 b4;
    }

-- Every field holds a value of its C type.
pub record HeaderFits (h : Header) : Type 0 where
  pub time_sec : h.time_sec < 2 ^ 64
  pub time_usec : h.time_usec < 2 ^ 64
  pub thread_id : h.thread_id < 2 ^ 64
  pub msg_num : h.msg_num < 2 ^ 32
  pub msg_code : h.msg_code < 2 ^ 8

pub record MemoryFits (d : MemoryData) : Type 0 where
  pub alloc_size : d.alloc_size < 2 ^ 64
  pub alloc_ptr : d.alloc_ptr < 2 ^ 64
  pub alloc_num : d.alloc_num < 2 ^ 32
  pub free_ptr : d.free_ptr < 2 ^ 64

pub record ThreadFits (d : ThreadData) : Type 0 where
  pub thread_id : d.thread_id < 2 ^ 64
  pub thread_name : length d.thread_name ≡ 24

pub record BacktraceFits (d : BacktraceData) : Type 0 where
  pub origin_msg_num : d.origin_msg_num < 2 ^ 32
  pub backtrace_size : d.backtrace_size < 2 ^ 8
  pub list_addr : AllBelow (2 ^ 64) d.list_addr
  pub array : length d.list_addr ≡ backtrace_max_size

pub record SymbolInfosFits (d : SymbolInfosData) : Type 0 where
  pub addr : d.addr < 2 ^ 64
  pub object_name : length d.object_name ≡ 256
  pub object_addr : d.object_addr < 2 ^ 64
  pub symbol_name : length d.symbol_name ≡ 96
  pub symbol_addr : d.symbol_addr < 2 ^ 64

abbrev pub DataFits : Message → Type 0
DataFits (app h) = Unit {0}
DataFits (memory h d) = MemoryFits d
DataFits (thread h d) = ThreadFits d
DataFits (backtrace h d) = BacktraceFits d
DataFits (symbolinfos h d) = SymbolInfosFits d
