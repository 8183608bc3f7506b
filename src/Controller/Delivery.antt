-- ===== src/Controller/Delivery.antt =====
-- The receiver of server/Server in front of QApplicationWindowController: the messages become calls of
-- the controller.
use aleakd.Base.{ℕ, ◌≡◌, refl, some, List, [], ◌∷◌}
use aleakd.Shared.Messages.{Message}
use aleakd.Server.Handler.{Server}
use aleakd.Server.Process.{memory_operation, thread_operation, symbol_infos}
use aleakd.Server.Process.Decode.{c_text, trace_of}
use aleakd.Server.Process.Stream.{handle_all}
use aleakd.Controller.State.{Controller, controller_handler}
use aleakd.Controller.Events.{Event, handle, run}

-- The call that a message becomes.
unfoldable pub event_of : Message → Event
event_of (Message.app h) = Event.connected
event_of (Message.memory h d) = Event.memory (memory_operation h d)
event_of (Message.thread h d) = Event.thread (thread_operation h d (c_text d.thread_name))
event_of (Message.backtrace h d) = Event.traced (trace_of d)
event_of (Message.symbolinfos h d) =
    Event.symbols (symbol_infos d (c_text d.object_name) (c_text d.symbol_name))

unfoldable pub events_of : List Message → List Event
unfolding event_of
events_of [] = []
events_of (m ∷ ms) = event_of m ∷ events_of ms

-- The receiver in front of the controller.
abbrev pub receiver : ℕ → Controller → Server Controller
receiver n c = record { msg_count = n; handler = some controller_handler; handler_state = c }

-- Messages that the receiver delivers leave the controller as the calls that they stand for do, one
-- after the other.
pub handle_all-receiver :
    (ms : List Message) (n : ℕ) (c : Controller)
    → (handle_all ms (receiver n c)).handler_state ≡ run (events_of ms) c
unfolding handle_all events_of event_of run handle controller_handler
handle_all-receiver [] n c = refl
handle_all-receiver (Message.app h ∷ ms) n c = handle_all-receiver ms _ _
handle_all-receiver (Message.memory h d ∷ ms) n c = handle_all-receiver ms _ _
handle_all-receiver (Message.thread h d ∷ ms) n c = handle_all-receiver ms _ _
handle_all-receiver (Message.backtrace h d ∷ ms) n c = handle_all-receiver ms _ _
handle_all-receiver (Message.symbolinfos h d ∷ ms) n c = handle_all-receiver ms _ _
