-- ===== src/Controller/Events.antt =====
-- A capture as the controller of QApplicationWindowController.cpp sees it: the calls of the receiver,
-- one after the other.
use aleakd.Base.{◌^◌, ◌<◌, ◌≡◌, false, true, List, [], ◌∷◌}
use aleakd.Model.Records.{MemoryOperation, ThreadOperation, Backtrace, SymbolInfos}
use aleakd.Model.Operations.{has_alloc_operation}
use aleakd.Controller.State.{
  Controller, on_new_connection, add_memory_operation, on_thread_operation, add_backtrace,
  add_symbol_infos,
}

pub data Event : Type 0 where
  connected : Event
  memory : MemoryOperation → Event
  thread : ThreadOperation → Event
  traced : Backtrace → Event
  symbols : SymbolInfos → Event

-- `onNewConnection`, `onMemoryOperationReceived`, `onThreadOperationReceived`,
-- `onBacktraceReceived` and `onSymbolInfosReceived`
unfoldable pub handle : Event → Controller → Controller
handle connected c = on_new_connection c
handle (memory o) c = add_memory_operation o c
handle (thread o) c = on_thread_operation o c
handle (traced b) c = add_backtrace b c
handle (symbols s) c = add_symbol_infos s c

unfoldable pub run : List Event → Controller → Controller
run [] c = c
run (e ∷ es) c = run es (handle e c)

-- An operation as the receiver makes it from a message of the client: of one of the nine codes of
-- memory functions, not freed, with a size of 64 bits.
abbrev pub IsReceived : Event → Type 0
IsReceived (memory o) =
    (o.freed ≡ false) × (has_alloc_operation o.msg_code ≡ true) × (o.alloc_size < 2 ^ 64)
IsReceived _ = Unit {0}

abbrev pub AreReceived : List Event → Type 0
AreReceived [] = Unit {0}
AreReceived (e ∷ es) = IsReceived e × AreReceived es
