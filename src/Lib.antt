-- ===== src/Lib.antt =====
-- aleakd: a library that is loaded into a program to report its use of memory (lib), and a server
-- that receives the reports and shows them (server). They share the structures of the messages
-- (shared).
--
-- The parts and the files that model them:
--   Base                 helpers: Boolean tests on the native numbers, lists, machine words
--   Shared               shared/global-const.h, shared/server-msg.h and shared/common.c: codes
--                        (Codes), the packed structures as bytes (Wire, Messages), `ALeakD_toHexString`
--                        (Hex)
--   Client/Comm          lib/server-comm.c: `servercomm_init`, `servercomm_send`,
--                        `servercomm_send_safe`, `servercomm_dispose` and the number of a message
--   Client/Interleaved   the same functions from several threads, which take turns at the two locks of the
--                        file, in any order
--   Client/Make          the making of the messages in the same file
--   Client/Cache         lib/backtrace.c: `backtrace_check_addr`; the lines of a printed trace are in
--                        Client/Symbols
--   Client/Wrapper       lib/wrapper.c: the wrapped functions on memory, `wrapper_init` and
--                        `backtrace_send`; Client/Threads has those on threads
--   Client/Calls         a run of the library, with lib/aleakd.c: its start, the calls of the program
--                        and its end (Library), what is reported of each call (Says), and what the
--                        receiver makes of it (Received)
--   Server/Handler       server/Server/IMemOpRcptServerHandler, an interface with the handler's state
--                        as a parameter
--   Server/Process       server/Server/MemOpRcptServer.cpp: `doProcessMsgV1`, `doProcessMsg` and
--                        `doProcessDataRead`
--   Server/Reader        `doReadMsg` of the same file: its buffer (Buffer), a stream that comes in
--                        pieces (Chunks), and the copy that overlaps (Overlap)
--   Server/Service       `run` of the same file with the named pipe, one client after the other
--                        (Sessions), and its slots for sockets (Sockets)
--   Model                server/Model: the records (Records), the searches (Operations, Threads,
--                        Symbols), the statistics (Stats, Usage)
--   Controller           server/GUIController/QApplicationWindowController.cpp: the lists of
--                        operations (OperationStore) and threads (ThreadStore), the counting
--                        (Counters), the whole controller as a handler (State), a capture as a sequence
--                        of its calls (Events), the messages as such calls (Delivery), the accounts
--                        (Accounting), the threads (Tracking) and the search (Filter) with its
--                        fields (Form); what the tables then show (Table), `onTimerUpdate` with its
--                        labels and combo box (Update) and its chart (Chart), and the dialog of one
--                        operation (Details); and all of it under any sequence of messages, clicks
--                        and timer updates (App)
--   View                 the two tables of server/GUIModel (OperationTable, ThreadTable), the labels
--                        of server/GUI (StatsView, Window), the texts they share (Cells), and the
--                        functions of Qt that make and read texts, as an interface (Qt)
--   Global               server/Global/Utils.cpp: `getBeautifulNumberString`
--   System               the library and the server together: their accounts, in Pipe over the named
--                        pipe, in Threads with several threads of the program at once
--   Tests                the theorems at concrete inputs
--
-- How the code is read. A pointer with a number of bytes behind it is the list of those bytes. A
-- machine integer is a native number with its wrap-around written out; an `int` is kept as its bits.
-- An object behind a `QSharedPointer` is a position in the list of all objects that were made, so
-- that all lists see an assignment. An access outside an array is a value of its own: `Fault` in the
-- receiver, `Run.overflow` in the library. The transfer mode is the named pipe with the transfer
-- buffer, as config.h sets them.
--
-- Bounds. `doProcessDataRead` takes one more round of fuel than there are bytes, which is enough since
-- every round takes a message. Its two `int`s are natural numbers, since `doReadMsg` passes at most
-- the 8192 bytes of its buffer. A device is the list of the reads that `doReadMsg` makes; after them
-- `read` gives 0. The loop around `doReadMsg` has fuel for one call, which is all that it makes. The
-- loops of the chart run to the last second known, which is taken to be under the largest number of 64
-- bits. The sizes of the buffers are those of the source.
--
-- What the library asks of the system is the record `Env`; what a real function gives is an argument of
-- the function that wraps it. `dlsym` finds all the real functions, and `dladdr`
-- finds every address of a trace.
--
-- What the server asks of the texts of Qt is the record `Qt` in View/Qt, and what it relies on is
-- `QtLaws`: a number that is written is read back, and a time is written as two numbers with a comma
-- between them, which `split` finds. Its containers are lists and association lists.
--
-- Not modelled: the calls of `malloc` that the start of the library makes itself; the making of
-- the widgets and the range of the chart's axes; what the toolkit does between two calls of a
-- slot; the branches of lib/server-comm.c for sockets, which the configuration leaves out, and
-- the start of the event loop for them; and the locks of the server: each call of the receiver
-- runs alone, as they make it for what they guard. `clearData` also changes the statistics of the
-- search, the filtered lists, the models and the chart outside of the locks; that nothing else uses
-- these meanwhile is an assumption of the model. The threads of the library take turns at its locks in
-- Client/Interleaved; elsewhere one call of it runs after the other. What `write` reports of the
-- pipe is not looked at, as in the source.
pub mod Base
pub mod Client
pub mod Controller
pub mod Global
pub mod Model
pub mod Server
pub mod Shared
pub mod System
pub mod Tests
pub mod View
