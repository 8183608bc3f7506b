-- ===== src/Controller/Table/Colors.antt =====
-- What a search for the operations not freed has found, as the table of the operations shows it
-- (server/GUIModel/QMemoryOperationModel.cpp).
use aleakd.Base.{
  ℕ, zero, suc, ◌<◌, ◌≡◌, refl, sym, ap, ◌∙◌, Bool, true, false, Option, none, some, List, [], ◌∷◌,
  if◌then◌else◌, length, get_elem?, get_elem?-some, arith,
}
use aleakd.Model.Records.{MemoryOperation}
use aleakd.Model.Objects.{deref, field_or, holds}
use aleakd.Model.Operations.Search.{keep}
use aleakd.Controller.State.{Controller}
use aleakd.Controller.Filter.{Query, accepts, on_filter_button_clicked}
use aleakd.Controller.Filter.Found.{accepted, on_filter_button_clicked-list}
use aleakd.Controller.Table.{row_of_index}
use aleakd.View.Qt.{Qt}
use aleakd.View.Cells.{color}
use aleakd.View.OperationTable.{
  columns, background, row_operation, operation_color, cell, index, data_of,
}

-- One more pointer in front, if it passes.
passes-cons :
    (p : ℕ → Bool) (r : ℕ) (ks : List ℕ) (b : Bool) (i : ℕ) {k : ℕ}
    → p r ≡ b
    → ((j : ℕ) → get_elem? ks j ≡ some k → p k ≡ true)
    → get_elem? (if b then r ∷ ks else ks) i ≡ some k
    → p k ≡ true
passes-cons p r ks false i h go e = go i e
passes-cons p r ks true zero h go e = cc
passes-cons p r ks true (suc i) h go e = go i e

-- The pointers that a search keeps pass its test.
keep-passes :
    (p : ℕ → Bool) (rs : List ℕ) (i : ℕ) {k : ℕ} → get_elem? (keep p rs) i ≡ some k → p k ≡ true
keep-passes p [] i e = cc
keep-passes p (r ∷ rs) i e = passes-cons p r (keep p rs) (p r) i refl (λ j. keep-passes p rs j) e

not_freed-red :
    (q : Query) (o : MemoryOperation)
    → q.not_freed ≡ true
    → accepts q o ≡ true
    → operation_color o ≡ color 255 180 180
unfolding accepts operation_color
not_freed-red q o n e = ground arith

color_at :
    (objects : List MemoryOperation) (list : List ℕ) (row col : ℕ) (qt : Qt) {r : ℕ}
    {o : MemoryOperation}
    → get_elem? list row ≡ some r
    → get_elem? objects r ≡ some o
    → data_of qt objects list (some (row, col)) background ≡ operation_color o
unfolding data_of row_operation cell
color_at objects list row col qt e f =
    ap (cell qt background (get_elem? columns col)) (ap (deref objects) e ∙ f)

found-red :
    (qt : Qt) (q : Query) (objects : List MemoryOperation) (ops list : List ℕ) (row col : ℕ)
    → q.not_freed ≡ true
    → list ≡ accepted q objects ops
    → row < length list
    → data_of qt objects list (some (row, col)) background ≡ color 255 180 180
found-red qt q objects ops list row col n found less =
    let (r, at) = get_elem?-some list row less in
    object r at (get_elem? objects r) refl
      (keep-passes (holds objects (accepts q)) ops row (ap (λ l. get_elem? l row) (sym found) ∙ at))
  where
    object :
        (r : ℕ)
        → get_elem? list row ≡ some r
        → (o : Option MemoryOperation) → get_elem? objects r ≡ o
        → field_or false (accepts q) o ≡ true
        → data_of qt objects list (some (row, col)) background ≡ color 255 180 180
    object r at none e passes = cc
    object r at (some o) e passes =
        color_at objects list row col qt at e ∙ not_freed-red q o n passes

-- After a search for what is not freed, the background of every cell that the table has is red.
pub on_filter_button_clicked-red :
    (qt : Qt) (q : Query) (c : Controller) (row col : ℕ) {p : ℕ × ℕ}
    → q.not_freed ≡ true
    → let c' = on_filter_button_clicked q c in
      index c'.loaded_count row col ≡ some p
      → data_of qt c'.operations.objects c'.list_filter_memory_operation
          (some (row, col))
          background
        ≡ color 255 180 180
unfolding on_filter_button_clicked
on_filter_button_clicked-red qt q c row col n e =
    found-red qt q c.operations.objects c.operations.list_memory_operation _ row col n
      (on_filter_button_clicked-list q c) (row_of_index _ row col e)
