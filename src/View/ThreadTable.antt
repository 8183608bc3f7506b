-- ===== src/View/ThreadTable.antt =====
-- server/GUIModel/QThreadInfosModel.cpp: the table of the threads of a capture.
use aleakd.Base.{ℕ, Option, none, some, List, [], ◌∷◌, if◌then◌else◌, ◌&&◌, ltb, length, get_elem?}
use aleakd.Model.Records.{ThreadInfos}
use aleakd.Controller.Counters.{timer_is_set}
use aleakd.Model.Objects.{deref}
use aleakd.View.Qt.{Qt, text}
use aleakd.View.Cells.{Variant, invalid, string, color, time_text, beautiful_number}
use aleakd.View.OperationTable.{Role, display, background, other}

-- `enum Cols` of QThreadInfosModel.h
pub data Column : Type 0 where
  thread_id thread_name time_creation time_termination : Column
  current_alloc_count current_size total_alloc_count peak_size : Column

unfoldable pub columns : List Column
columns =
    thread_id ∷ thread_name ∷ time_creation ∷ time_termination ∷ current_alloc_count ∷ current_size
    ∷ total_alloc_count ∷ peak_size ∷ []

-- The `switch` of `data`. The counters are shown as the numbers of their 32-bit patterns.
unfoldable pub thread_text : Qt → Column → ThreadInfos → List ℕ
unfolding time_text beautiful_number
thread_text q thread_id t = q.number t.thread_id
thread_text q time_creation t = time_text q t.tv_creation
thread_text q time_termination t =
    if timer_is_set t.tv_termination then time_text q t.tv_termination else []
thread_text q thread_name t = t.thread_name
thread_text q current_alloc_count t = beautiful_number q t.current_alloc_count
thread_text q current_size t = beautiful_number q t.current_size
thread_text q total_alloc_count t = beautiful_number q t.total_alloc_count
thread_text q peak_size t = beautiful_number q t.peak_size

unfoldable pub display_text : Qt → Option Column → ThreadInfos → Variant
unfolding thread_text
display_text q none t = invalid
display_text q (some k) t = string (thread_text q k t)

-- The background: grey for a thread that has ended.
unfoldable pub thread_color : ThreadInfos → Variant
thread_color t = if t.is_terminated then color 180 180 180 else invalid

unfoldable pub cell : Qt → Role → Option Column → Option ThreadInfos → Variant
unfolding display_text thread_color
cell q display k none = string []
cell q display k (some t) = display_text q k t
cell q background k none = string []
cell q background k (some t) = thread_color t
cell q other k t = invalid

-- The object behind the pointer of a row.
unfoldable pub row_thread : List ThreadInfos → List ℕ → ℕ → Option ThreadInfos
row_thread objects list row = deref objects (get_elem? list row)

-- `rowCount` for the root
unfoldable pub row_count : List ℕ → ℕ
row_count list = length list

unfoldable pub column_count : ℕ
unfolding columns
column_count = length columns

-- `index`
unfoldable pub index : List ℕ → ℕ → ℕ → Option (ℕ × ℕ)
unfolding row_count column_count
index list row col =
    if ltb row (row_count list) && ltb col column_count then some (row, col) else none

-- `data`
unfoldable pub data_of : Qt → List ThreadInfos → List ℕ → Option (ℕ × ℕ) → Role → Variant
unfolding cell row_thread columns
data_of q objects list none role = invalid
data_of q objects list (some (row, col)) role =
    cell q role (get_elem? columns col) (row_thread objects list row)

unfoldable pub header_text : Column → List ℕ
header_text thread_id = text "Thread id"
header_text thread_name = text "Thread name"
header_text time_creation = text "Time creation"
header_text time_termination = text "Time termination"
header_text current_alloc_count = text "Alloc count"
header_text current_size = text "Current size"
header_text total_alloc_count = text "Total alloc count"
header_text peak_size = text "Peak size"

-- `headerData` for the horizontal header
unfoldable pub header_data : ℕ → Role → Variant
unfolding header_text columns
header_data section display = elim (get_elem? columns section) [
  | none ↦ invalid
  | some k ↦ string (header_text k)
]
header_data section _ = invalid
