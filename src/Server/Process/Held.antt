-- ===== src/Server/Process/Held.antt =====
-- The backtrace that `doProcessMsgV1` of MemOpRcptServer.cpp holds back when nothing follows it.
use aleakd.Base.{◌+◌, ◌≤◌, ◌<◌, ◌≡◌, refl, List, [], ◌∷◌, length, length-append, arith}
use aleakd.Shared.Messages.{Message, message_bytes}
use aleakd.Server.Process.Decode.{IsWellSent, msg_size, needed, length-message_bytes}
use aleakd.Server.Process.Stream.{stream, AllWellSent, EndsTaken, msg_size-ge, needed-le}

-- The messages without a backtrace at the end, which the server holds back.
unfoldable pub unheld : List Message → List Message
unheld [] = []
unheld (Message.backtrace h d ∷ []) = []
unheld (m ∷ []) = m ∷ []
unheld (m ∷ m' ∷ ms) = m ∷ unheld (m' ∷ ms)

pub length-stream_cons :
    (m : Message) (ms : List Message)
    → IsWellSent m
    → length (stream (m ∷ ms)) ≡ msg_size m + length (stream ms)
unfolding stream
length-stream_cons m ms w =
    omega (arith, length-append (message_bytes m) (stream ms), length-message_bytes m w)

-- A message that is not taken although all the bytes are there is a backtrace at the end.
pub unheld_short :
    (m : Message) (ms : List Message)
    → AllWellSent (m ∷ ms)
    → length (stream (m ∷ ms)) < needed m
    → unheld (m ∷ ms) ≡ []
unfolding unheld
unheld_short (Message.backtrace h d) [] w few = refl
unheld_short (Message.app h) [] w few =
    absurd (omega (arith, length-stream_cons (Message.app h) [] w.0))
unheld_short (Message.memory h d) [] w few =
    absurd (omega (arith, length-stream_cons (Message.memory h d) [] w.0))
unheld_short (Message.thread h d) [] w few =
    absurd (omega (arith, length-stream_cons (Message.thread h d) [] w.0))
unheld_short (Message.symbolinfos h d) [] w few =
    absurd (omega (arith, length-stream_cons (Message.symbolinfos h d) [] w.0))
unheld_short m (m' ∷ ms) w few = absurd (
    omega (
      arith,
      length-stream_cons m (m' ∷ ms) w.0,
      length-stream_cons m' ms w.1.0,
      needed-le m,
      msg_size-ge m',
    ))

-- Where there are no bytes, there are no messages.
pub unheld_empty : (ms : List Message) → AllWellSent ms → length (stream ms) ≡ 0 → unheld ms ≡ []
unfolding unheld
unheld_empty [] w e = refl
unheld_empty (m ∷ ms) w e = absurd (omega (arith, length-stream_cons m ms w.0, msg_size-ge m))

-- Where the last message is no backtrace, nothing is held back.
pub unheld_nothing : (ms : List Message) → unheld ms ≡ [] → EndsTaken ms → stream ms ≡ []
unfolding unheld stream
unheld_nothing [] e t = refl
unheld_nothing (Message.backtrace h d ∷ []) e t = absurd (omega arith)
unheld_nothing (Message.app h ∷ []) e t = cc
unheld_nothing (Message.memory h d ∷ []) e t = cc
unheld_nothing (Message.thread h d ∷ []) e t = cc
unheld_nothing (Message.symbolinfos h d ∷ []) e t = cc
unheld_nothing (Message.app h ∷ m' ∷ ms) e t = cc
unheld_nothing (Message.memory h d ∷ m' ∷ ms) e t = cc
unheld_nothing (Message.thread h d ∷ m' ∷ ms) e t = cc
unheld_nothing (Message.backtrace h d ∷ m' ∷ ms) e t = cc
unheld_nothing (Message.symbolinfos h d ∷ m' ∷ ms) e t = cc

-- A message that is taken is not held back.
pub unheld_taken :
    (m : Message) (ms : List Message)
    → IsWellSent m
    → needed m ≤ length (stream (m ∷ ms))
    → unheld (m ∷ ms) ≡ m ∷ unheld ms
unfolding unheld stream
unheld_taken (Message.backtrace h d) [] w enough =
    absurd (omega (arith, length-stream_cons (Message.backtrace h d) [] w))
unheld_taken (Message.app h) [] w enough = refl
unheld_taken (Message.memory h d) [] w enough = refl
unheld_taken (Message.thread h d) [] w enough = refl
unheld_taken (Message.symbolinfos h d) [] w enough = refl
unheld_taken (Message.app h) (m' ∷ ms) w enough = refl
unheld_taken (Message.memory h d) (m' ∷ ms) w enough = refl
unheld_taken (Message.thread h d) (m' ∷ ms) w enough = refl
unheld_taken (Message.backtrace h d) (m' ∷ ms) w enough = refl
unheld_taken (Message.symbolinfos h d) (m' ∷ ms) w enough = refl
