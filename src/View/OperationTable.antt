-- ===== src/View/OperationTable.antt =====
-- server/GUIModel/QMemoryOperationModel.cpp: the table of the operations that a search has found.
use aleakd.Base.{
  ℕ, ◌==◌, add32, sub32, ◌&&◌, Option, none, some, List, [], ◌∷◌, ◌++◌, ltb, if◌then◌else◌, length,
  get_elem?,
}
use aleakd.Shared.Codes.{MsgCode, msg_label}
use aleakd.Model.Records.{MemoryOperation}
use aleakd.Model.Objects.{deref}
use aleakd.View.Qt.{Qt, text}
use aleakd.View.Cells.{Variant, invalid, string, color, time_text, beautiful_number}

-- `Qt::DisplayRole`, `Qt::BackgroundColorRole`, which is `Qt::BackgroundRole`, and the others.
pub data Role : Type 0 where
  display background other : Role

-- `enum Cols` of QMemoryOperationModel.h
pub data Column : Type 0 where
  msg_num time_stamp thread operation alloc_size alloc_ptr alloc_num free_ptr : Column

unfoldable pub columns : List Column
columns =
    msg_num ∷ time_stamp ∷ thread ∷ operation ∷ alloc_size ∷ alloc_ptr ∷ alloc_num ∷ free_ptr ∷ []

-- A number, or nothing for 0.
unfoldable pub unless_zero : ℕ → List ℕ → List ℕ
unless_zero n t = if n == 0 then [] else t

-- The `switch` of `data`
unfoldable pub operation_text : Qt → Column → MemoryOperation → List ℕ
unfolding unless_zero time_text beautiful_number msg_label
operation_text q msg_num o = q.number o.msg_num
operation_text q time_stamp o = time_text q o.tv_operation
operation_text q thread o = q.number o.caller_thread_id
operation_text q operation o = text (msg_label o.msg_code)
operation_text q alloc_size o = unless_zero o.alloc_size (beautiful_number q o.alloc_size)
operation_text q alloc_ptr o = unless_zero o.alloc_ptr (text "0x" ++ q.number_hex o.alloc_ptr)
operation_text q alloc_num o = unless_zero o.alloc_num (q.number o.alloc_num)
operation_text q free_ptr o = unless_zero o.free_ptr (text "0x" ++ q.number_hex o.free_ptr)

-- The background: grey for a free, red for what is not freed, green for what is.
unfoldable pub operation_color : MemoryOperation → Variant
operation_color o = elim o.msg_code [
  | MsgCode.free ↦ color 180 180 180
  | _ ↦ if o.freed then color 180 255 180 else color 255 180 180
]

unfoldable pub display_text : Qt → Option Column → MemoryOperation → Variant
unfolding operation_text
display_text q none o = invalid
display_text q (some k) o = string (operation_text q k o)

-- The object behind the pointer of a row, which `QList::value` gives as null out of range.
unfoldable pub row_operation : List MemoryOperation → List ℕ → ℕ → Option MemoryOperation
row_operation objects list row = deref objects (get_elem? list row)

unfoldable pub cell : Qt → Role → Option Column → Option MemoryOperation → Variant
unfolding display_text operation_color
cell q display k none = string []
cell q display k (some o) = display_text q k o
cell q background k none = invalid
cell q background k (some o) = operation_color o
cell q other k o = invalid

-- `rowCount` and `columnCount` for the root
abbrev pub row_count : ℕ → ℕ
row_count loaded_count = loaded_count

unfoldable pub column_count : ℕ
unfolding columns
column_count = length columns

-- `index`: invalid outside the rows and columns.
unfoldable pub index : ℕ → ℕ → ℕ → Option (ℕ × ℕ)
unfolding column_count
index loaded_count row col =
    if ltb row (row_count loaded_count) && ltb col column_count then some (row, col) else none

-- `data`
unfoldable pub data_of : Qt → List MemoryOperation → List ℕ → Option (ℕ × ℕ) → Role → Variant
unfolding cell row_operation columns
data_of q objects list none role = invalid
data_of q objects list (some (row, col)) role =
    cell q role (get_elem? columns col) (row_operation objects list row)

-- `fetchTo` on the `int` patterns
unfoldable pub fetch_to : ℕ → ℕ → ℕ
fetch_to row loaded_count = add32 loaded_count (sub32 row loaded_count)

unfoldable pub header_text : Column → List ℕ
header_text msg_num = text "Msg num"
header_text time_stamp = text "Timestamp"
header_text thread = text "Thread"
header_text operation = text "Operation"
header_text alloc_size = text "Alloc size"
header_text alloc_ptr = text "Alloc ptr"
header_text alloc_num = text "Alloc num"
header_text free_ptr = text "Free ptr"

-- `headerData` for the horizontal header
unfoldable pub header_data : ℕ → Role → Variant
unfolding header_text columns
header_data section display = elim (get_elem? columns section) [
  | none ↦ invalid
  | some k ↦ string (header_text k)
]
header_data section _ = invalid
