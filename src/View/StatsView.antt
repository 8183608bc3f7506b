-- ===== src/View/StatsView.antt =====
-- server/GUI/QMemoryStatsView.cpp: the two columns of labels with the statistics. A row of labels is a
-- function from the index of a label to its text.
use aleakd.Base.{ℕ, ◌==◌, List, [], if◌then◌else◌}
use aleakd.Global.{get_beautiful_number_string}
use aleakd.View.Qt.{text}

-- `enum TitleItem`
pub data TitleItem : Type 0 where
  headers filter global : TitleItem

-- `enum DataItem`
pub data DataItem : Type 0 where
  title op_count : DataItem
  total_alloc_count total_alloc_size total_free_count total_free_size : DataItem
  total_remaining_count total_remaining_size : DataItem
  malloc calloc realloc free posix_memalign aligned_alloc memalign valloc pvalloc : DataItem

-- The number of an item.
unfoldable pub item_index : DataItem → ℕ
item_index title = 0
item_index op_count = 1
item_index total_alloc_count = 2
item_index total_alloc_size = 3
item_index total_free_count = 4
item_index total_free_size = 5
item_index total_remaining_count = 6
item_index total_remaining_size = 7
item_index malloc = 8
item_index calloc = 9
item_index realloc = 10
item_index free = 11
item_index posix_memalign = 12
item_index aligned_alloc = 13
item_index memalign = 14
item_index valloc = 15
item_index pvalloc = 16

pub record StatsLabels : Type 0 where
  pub status_row1 : ℕ → List ℕ
  pub status_row2 : ℕ → List ℕ

-- `QMemoryStatsView::getColName`
unfoldable pub get_col_name : DataItem → List ℕ
get_col_name title = []
get_col_name op_count = text "Op count"
get_col_name total_alloc_count = text "Alloc total count"
get_col_name total_alloc_size = text "Alloc total size"
get_col_name total_free_count = text "Free total count"
get_col_name total_free_size = text "Free total size"
get_col_name total_remaining_count = text "Remaining total count"
get_col_name total_remaining_size = text "Remaining total size"
get_col_name malloc = text "malloc"
get_col_name calloc = text "calloc"
get_col_name realloc = text "realloc"
get_col_name free = text "free"
get_col_name posix_memalign = text "posix_memalign"
get_col_name aligned_alloc = text "aligned_alloc"
get_col_name memalign = text "memalign"
get_col_name valloc = text "valloc"
get_col_name pvalloc = text "pvalloc"

-- `setText` on one label of a row.
abbrev pub set_text : ℕ → List ℕ → (ℕ → List ℕ) → ℕ → List ℕ
set_text i t row j = if j == i then t else row j

-- `QMemoryStatsView::setData`
unfoldable pub set_data : TitleItem → DataItem → List ℕ → StatsLabels → StatsLabels
unfolding item_index get_beautiful_number_string
set_data headers k value l = l
set_data filter k value l = record l {
  status_row1 = set_text (item_index k) (get_beautiful_number_string value) l.status_row1;
}
set_data global k value l = record l {
  status_row2 = set_text (item_index k) (get_beautiful_number_string value) l.status_row2;
}

-- The texts that the constructor gives a row: its title, and zeros.
abbrev pub new_row : List ℕ → ℕ → List ℕ
new_row name i = if i == 0 then name else text "0"

-- `QMemoryStatsView::QMemoryStatsView`, as far as the labels hold text.
unfoldable pub new_stats_labels : StatsLabels
new_stats_labels = record {
  status_row1 = new_row (text "Filter");
  status_row2 = new_row (text "Global");
}
