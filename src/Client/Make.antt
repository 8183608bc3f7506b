-- ===== src/Client/Make.antt =====
-- lib/server-comm.c: the making of the messages.
use aleakd.Base.{ℕ, List, ◌++◌, length, drop, replicate}
use aleakd.Shared.Codes.{MsgCode, code}
use aleakd.Shared.Messages.{
  Header, MemoryData, ThreadData, BacktraceData, SymbolInfosData, backtrace_max_size,
}
use aleakd.Client.Comm.{Now, Comm, header_init}

-- `servercomm_msg_memory_init_v1`
unfoldable pub memory_init : Now → Comm → (Header × MemoryData) × Comm
unfolding header_init
memory_init now c =
    let (h, c') = header_init now c in
    ((h, record { alloc_size = 0; alloc_ptr = 0; alloc_num = 0; free_ptr = 0 }), c')

-- `servercomm_msg_thread_init_v1`
unfoldable pub thread_init : Now → Comm → (Header × ThreadData) × Comm
unfolding header_init
thread_init now c =
    let (h, c') = header_init now c in
    ((h, record { thread_id = 0; thread_name = replicate 24 0 }), c')

-- `servercomm_msg_backtrace_init_v1`
unfoldable pub backtrace_init : Now → Comm → (Header × BacktraceData) × Comm
unfolding header_init
backtrace_init now c =
    let (h, c') = header_init now c in
    (
      (
        record h { msg_code = code MsgCode.backtrace },
        record {
          origin_msg_num = 0;
          backtrace_size = 0;
          list_addr = replicate backtrace_max_size 0;
        },
      ),
      c',
    )

-- `servercomm_msg_backtrace_make`: the loop writes the addresses over the front of the array. There
-- are at most as many as `backtrace` was asked for, the size of the array.
unfoldable pub backtrace_make : List ℕ → BacktraceData → BacktraceData
backtrace_make addrs d = record d {
  backtrace_size = length addrs;
  list_addr = addrs ++ drop (length addrs) d.list_addr;
}

-- `servercomm_msg_symbolinfos_init_v1`
unfoldable pub symbolinfos_init : Now → Comm → (Header × SymbolInfosData) × Comm
unfolding header_init
symbolinfos_init now c =
    let (h, c') = header_init now c in
    (
      (
        record h { msg_code = code MsgCode.symbolinfos },
        record {
          addr = 0;
          object_name = replicate 256 0;
          object_addr = 0;
          symbol_name = replicate 96 0;
          symbol_addr = 0;
        },
      ),
      c',
    )
