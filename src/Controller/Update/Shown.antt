-- ===== src/Controller/Update/Shown.antt =====
-- What `onTimerUpdate` of QApplicationWindowController.cpp leaves in the labels and in the combo box.
use aleakd.Base.{
  ℕ, ◌<◌, ◌≡◌, refl, ◌∙◌, Bool, true, false, ◌||◌, Option, none, some, List, [], ◌∷◌, ◌==◌,
  get_elem?, Bool-cases, inl, inr, arith,
}
use aleakd.Model.Records.{ThreadInfos}
use aleakd.Model.Stats.{MemoryStats}
use aleakd.Controller.State.{Controller}
use aleakd.Controller.Update.{
  set_item, set_thread, set_threads, with_all_threads, update_combo_box, update_stats,
}
use aleakd.View.Qt.{Qt}
use aleakd.Global.{get_beautiful_number_string}
use aleakd.View.StatsView.{
  DataItem, StatsLabels, item_index, title, op_count, total_alloc_count, total_alloc_size,
  total_free_count, total_free_size, total_remaining_count, total_remaining_size, malloc, calloc,
  realloc, free, posix_memalign, aligned_alloc, memalign, valloc, pvalloc,
}

-- An item with this data is there.
abbrev pub has_item : ℕ → List (ℕ × List ℕ) → Bool
has_item k [] = false
has_item k ((j, l) ∷ items) = (j == k) || has_item k items

-- No data stands in two items.
abbrev pub AreDistinct : List (ℕ × List ℕ) → Type 0
AreDistinct [] = Unit {0}
AreDistinct ((j, l) ∷ items) = (has_item j items ≡ false) × AreDistinct items

has_item-set_item :
    (k id : ℕ) (label : List ℕ) (items : List (ℕ × List ℕ))
    → has_item k (set_item id label items) ≡ (has_item k items || (id == k))
unfolding set_item
has_item-set_item k id label [] = ground arith
has_item-set_item k id label ((j, l) ∷ items) = ground (arith, has_item-set_item k id label items)

set_item-AreDistinct :
    (id : ℕ) (label : List ℕ) (items : List (ℕ × List ℕ))
    → AreDistinct items
    → AreDistinct (set_item id label items)
unfolding set_item
set_item-AreDistinct id label [] d = (refl, tt)
set_item-AreDistinct id label ((j, l) ∷ items) d = elim (Bool-cases (j == id)) [
  | inl e ↦ rw e d
  | inr e ↦
      rw e
        (has_item-set_item j id label items ∙ ground arith, set_item-AreDistinct id label items d.1)
]

-- Every thread of the list has an item.
abbrev pub AreListed : List ThreadInfos → List ℕ → List (ℕ × List ℕ) → Type 0
AreListed objects [] items = Unit {0}
AreListed objects (r ∷ rs) items =
    ((t : ThreadInfos) → get_elem? objects r ≡ some t → has_item t.thread_id items ≡ true)
    × AreListed objects rs items

set_thread-keeps :
    (q : Qt) (o : Option ThreadInfos) (k : ℕ) (items : List (ℕ × List ℕ))
    → has_item k items ≡ true
    → has_item k (set_thread q o items) ≡ true
unfolding set_thread
set_thread-keeps q none k items h = h
set_thread-keeps q (some t) k items h = has_item-set_item k t.thread_id _ items ∙ ground arith

set_threads-keeps :
    (q : Qt) (objects : List ThreadInfos) (rs : List ℕ) (k : ℕ) (items : List (ℕ × List ℕ))
    → has_item k items ≡ true
    → has_item k (set_threads q objects rs items) ≡ true
unfolding set_threads
set_threads-keeps q objects [] k items h = h
set_threads-keeps q objects (r ∷ rs) k items h =
    set_threads-keeps q objects rs k (set_thread q (get_elem? objects r) items)
      (set_thread-keeps q (get_elem? objects r) k items h)

set_thread-lists :
    (q : Qt) (o : Option ThreadInfos) (t : ThreadInfos) (items : List (ℕ × List ℕ))
    → o ≡ some t
    → has_item t.thread_id (set_thread q o items) ≡ true
unfolding set_thread
set_thread-lists q none t items e = cc
set_thread-lists q (some t') t items e =
    let same : t'.thread_id ≡ t.thread_id = cc in
    has_item-set_item t.thread_id t'.thread_id _ items ∙ ground arith

set_threads-AreListed :
    (q : Qt) (objects : List ThreadInfos) (rs : List ℕ) (items : List (ℕ × List ℕ))
    → AreListed objects rs (set_threads q objects rs items)
unfolding set_threads
set_threads-AreListed q objects [] items = tt
set_threads-AreListed q objects (r ∷ rs) items = (
  λ t e.
      set_threads-keeps q objects rs t.thread_id (set_thread q (get_elem? objects r) items)
        (set_thread-lists q (get_elem? objects r) t items e),
  set_threads-AreListed q objects rs (set_thread q (get_elem? objects r) items),
)

set_thread-AreDistinct :
    (q : Qt) (o : Option ThreadInfos) (items : List (ℕ × List ℕ))
    → AreDistinct items
    → AreDistinct (set_thread q o items)
unfolding set_thread
set_thread-AreDistinct q none items d = d
set_thread-AreDistinct q (some t) items d = set_item-AreDistinct t.thread_id _ items d

set_threads-AreDistinct :
    (q : Qt) (objects : List ThreadInfos) (rs : List ℕ) (items : List (ℕ × List ℕ))
    → AreDistinct items
    → AreDistinct (set_threads q objects rs items)
unfolding set_threads
set_threads-AreDistinct q objects [] items d = d
set_threads-AreDistinct q objects (r ∷ rs) items d =
    set_threads-AreDistinct q objects rs (set_thread q (get_elem? objects r) items)
      (set_thread-AreDistinct q (get_elem? objects r) items d)

with_all_threads-AreDistinct :
    (items : List (ℕ × List ℕ)) → AreDistinct items → AreDistinct (with_all_threads items)
unfolding with_all_threads
with_all_threads-AreDistinct [] d = (refl, tt)
with_all_threads-AreDistinct (item ∷ items) d = d

-- From a combo box in which no two items have the same data, an update makes one in which that is so
-- too, and in which every thread of the capture has an item with its id.
pub update_combo_box-items :
    (q : Qt) (c : Controller)
    → AreDistinct c.thread_id_combo_box
    → let c' = update_combo_box q c in
      AreDistinct c'.thread_id_combo_box
      × AreListed c.threads.objects c.threads.list_thread_infos c'.thread_id_combo_box
unfolding update_combo_box
update_combo_box-items q c d = (
  set_threads-AreDistinct q c.threads.objects c.threads.list_thread_infos _
      (with_all_threads-AreDistinct c.thread_id_combo_box d),
  set_threads-AreListed q c.threads.objects c.threads.list_thread_infos _,
)

-- The number that belongs beside the name of an item.
unfoldable pub stat_text : Qt → DataItem → MemoryStats → List ℕ
stat_text q title s = []
stat_text q op_count s = q.number_int s.memory_operation_count
stat_text q total_alloc_count s = q.number_int s.total_alloc_count
stat_text q total_alloc_size s = q.number s.total_alloc_size
stat_text q total_free_count s = q.number_int s.total_free_count
stat_text q total_free_size s = q.number s.total_free_size
stat_text q total_remaining_count s = q.number_int s.total_remaining_count
stat_text q total_remaining_size s = q.number s.total_remaining_size
stat_text q malloc s = q.number_int s.malloc_count
stat_text q calloc s = q.number_int s.calloc_count
stat_text q realloc s = q.number_int s.realloc_count
stat_text q free s = q.number_int s.free_count
stat_text q posix_memalign s = q.number_int s.posix_memalign_count
stat_text q aligned_alloc s = q.number_int s.aligned_alloc_count
stat_text q memalign s = q.number_int s.mem_align_count
stat_text q valloc s = q.number_int s.valloc_count
stat_text q pvalloc s = q.number_int s.pvalloc_count

-- After an update, each of the sixteen labels of a column shows the number that belongs beside the name
-- of its item, grouped for reading: those of the last search in the first column, and those of the whole
-- capture in the second one.
pub update_stats-labels :
    (q : Qt) (c : Controller) (l : StatsLabels) (k : DataItem)
    → 0 < item_index k
    → let l' = update_stats q c l in
      (l'.status_row1 (item_index k) ≡ get_beautiful_number_string (stat_text q k c.search_stats))
      × (l'.status_row2 (item_index k) ≡ get_beautiful_number_string (stat_text q k c.global_stats))
unfolding update_stats item_index stat_text
update_stats-labels q c l title h = absurd (omega arith)
update_stats-labels q c l op_count h = (refl, refl)
update_stats-labels q c l total_alloc_count h = (refl, refl)
update_stats-labels q c l total_alloc_size h = (refl, refl)
update_stats-labels q c l total_free_count h = (refl, refl)
update_stats-labels q c l total_free_size h = (refl, refl)
update_stats-labels q c l total_remaining_count h = (refl, refl)
update_stats-labels q c l total_remaining_size h = (refl, refl)
update_stats-labels q c l malloc h = (refl, refl)
update_stats-labels q c l calloc h = (refl, refl)
update_stats-labels q c l realloc h = (refl, refl)
update_stats-labels q c l free h = (refl, refl)
update_stats-labels q c l posix_memalign h = (refl, refl)
update_stats-labels q c l aligned_alloc h = (refl, refl)
update_stats-labels q c l memalign h = (refl, refl)
update_stats-labels q c l valloc h = (refl, refl)
update_stats-labels q c l pvalloc h = (refl, refl)
