-- ===== src/Controller/Table.antt =====
-- The table of the operations (server/GUIModel/QMemoryOperationModel.cpp) on the list that the search of
-- QApplicationWindowController.cpp fills, while further messages arrive.
pub mod Colors
use aleakd.Base.{
  ℕ, zero, suc, ◌+◌, ◌<◌, ◌≤◌, ◌≡◌, refl, sym, ap, ◌∙◌, Bool, true, false, not, ◌&&◌, Option, none,
  some, List, [], ◌∷◌, ◌++◌, ltb, if◌then◌else◌, length, get_elem?, get_elem?-some, subst, ◌==◌,
  length-append, arith, Bool-cases, inl, inr, ltb→lt,
}
use aleakd.Shared.Codes.{MsgCode}
use aleakd.Model.Records.{MemoryOperation, Backtrace}
use aleakd.Model.Objects.{field_or, holds, length-modify}
use aleakd.Model.Operations.Search.{keep}
use aleakd.Controller.OperationStore.{
  OperationStore, set_freed, mark_taken, take_freed, append_operation, store_operation, mark_traced,
  attach_backtrace,
}
use aleakd.Controller.State.{
  Controller, new_controller, clear_data, on_new_connection, add_memory_operation,
  on_thread_operation, add_backtrace, add_symbol_infos,
}
use aleakd.Controller.Events.{Event, handle}
use aleakd.Controller.Filter.{Query, accepts, is_free, on_filter_button_clicked}
use aleakd.Controller.Filter.Found.{accepted, on_filter_button_clicked-list}
use aleakd.View.Qt.{Qt}
use aleakd.View.Cells.{color}
use aleakd.View.OperationTable.{
  Role, background, row_operation, operation_color, cell, index, data_of, column_count,
}

-- Every pointer leads to an object.
abbrev pub AllLead : ℕ → List ℕ → Type 0
AllLead n [] = Unit {0}
AllLead n (r ∷ rs) = (r < n) × AllLead n rs

AllLead-more : (m n : ℕ) (rs : List ℕ) → m ≤ n → AllLead m rs → AllLead n rs
AllLead-more m n [] le h = tt
AllLead-more m n (r ∷ rs) le h = (omega arith, AllLead-more m n rs le h.1)

AllLead-append : (n : ℕ) (rs ss : List ℕ) → AllLead n rs → AllLead n ss → AllLead n (rs ++ ss)
AllLead-append n [] ss h k = k
AllLead-append n (r ∷ rs) ss h k = (h.0, AllLead-append n rs ss h.1 k)

AllLead-keep : (n : ℕ) (p : ℕ → Bool) (rs : List ℕ) → AllLead n rs → AllLead n (keep p rs)
AllLead-keep n p [] h = tt
AllLead-keep n p (r ∷ rs) h = elim (Bool-cases (p r)) [
  | inl e ↦ rw e (h.0, AllLead-keep n p rs h.1)
  | inr e ↦ rw e (AllLead-keep n p rs h.1)
]

-- The table has a row for each pointer of the list, and every pointer leads to an operation.
pub record IsFilled (c : Controller) : Type 0 where
  pub rows : c.loaded_count ≡ length c.list_filter_memory_operation
  pub shown : AllLead (length c.operations.objects) c.list_filter_memory_operation
  pub stored : AllLead (length c.operations.objects) c.operations.list_memory_operation

-- The lists of all operations before and after a change that makes no object go away.
record Grows (st st' : OperationStore) : Type 0 where
  more : length st.objects ≤ length st'.objects
  leads :
      AllLead (length st.objects) st.list_memory_operation
      → AllLead (length st'.objects) st'.list_memory_operation

Grows-same :
    (st st' : OperationStore)
    → length st'.objects ≡ length st.objects
    → st'.list_memory_operation ≡ st.list_memory_operation
    → Grows st st'
Grows-same st st' size list = record { more = omega arith; leads = λ h. rw (size, list) h }

mark_taken-Grows :
    (st : OperationStore) (found : Option (ℕ × List ℕ)) → Grows st (mark_taken st found).1
unfolding mark_taken
mark_taken-Grows st none = Grows-same st st refl refl
mark_taken-Grows st (some (r, rest)) =
    Grows-same st (mark_taken st (some (r, rest))).1 (length-modify set_freed r st.objects) refl

take_freed-Grows : (ptr : ℕ) (st : OperationStore) → Grows st (take_freed ptr st).1
unfolding take_freed
take_freed-Grows ptr st = elim (Bool-cases (ptr == 0)) [
  | inl e ↦ rw e (Grows-same st st refl refl)
  | inr e ↦ rw e (mark_taken-Grows st _)
]

append_operation-Grows :
    (o : MemoryOperation) (st : OperationStore) → Grows st (append_operation o st)
unfolding append_operation
append_operation-Grows o st = record {
  more = omega (arith, length-append st.objects (o ∷ []));
  leads = λ h.
      AllLead-append _ st.list_memory_operation (length st.objects ∷ [])
        (AllLead-more (length st.objects) _ st.list_memory_operation
          (omega (arith, length-append st.objects (o ∷ []))) h)
        (omega (arith, length-append st.objects (o ∷ [])), tt);
}

Grows-trans : (a b c : OperationStore) → Grows a b → Grows b c → Grows a c
Grows-trans a b c g h = record {
  more = omega (arith, g.more, h.more);
  leads = λ x. h.leads (g.leads x);
}

store_operation-Grows :
    (o : MemoryOperation) (st : OperationStore) → Grows st (store_operation o st).1
unfolding store_operation
store_operation-Grows o st =
    let st' = (take_freed o.free_ptr st).1 in
    Grows-trans st st' (append_operation o st') (take_freed-Grows o.free_ptr st)
      (append_operation-Grows o st')

mark_traced-Grows :
    (b : Backtrace) (st : OperationStore) (found : Option (ℕ × List ℕ))
    → Grows st (mark_traced b st found)
unfolding mark_traced
mark_traced-Grows b st none = Grows-same st st refl refl
mark_traced-Grows b st (some (r, rest)) =
    Grows-same st (mark_traced b st (some (r, rest)))
      (length-modify (λ o. record o { back_trace = some b }) r st.objects) refl

attach_backtrace-Grows : (b : Backtrace) (st : OperationStore) → Grows st (attach_backtrace b st)
unfolding attach_backtrace
attach_backtrace-Grows b st = mark_traced-Grows b st _

-- A change that keeps the table and makes no object go away.
IsFilled-Grows :
    (c c' : Controller)
    → c'.loaded_count ≡ c.loaded_count
    → c'.list_filter_memory_operation ≡ c.list_filter_memory_operation
    → Grows c.operations c'.operations
    → IsFilled c
    → IsFilled c'
IsFilled-Grows c c' count list g f = record {
  rows = count ∙ f.rows ∙ ap length (sym list);
  shown = rw list (AllLead-more _ _ c.list_filter_memory_operation g.more f.shown);
  stored = g.leads f.stored;
}

pub handle-IsFilled : (e : Event) (c : Controller) → IsFilled c → IsFilled (handle e c)
unfolding handle on_new_connection clear_data add_memory_operation on_thread_operation add_backtrace
    add_symbol_infos
handle-IsFilled Event.connected c f = record { rows = refl; shown = tt; stored = tt }
handle-IsFilled (Event.memory o) c f =
    IsFilled-Grows c (add_memory_operation o c) refl refl (store_operation-Grows o c.operations) f
handle-IsFilled (Event.thread o) c f = record { rows = f.rows; shown = f.shown; stored = f.stored }
handle-IsFilled (Event.traced b) c f =
    IsFilled-Grows c (add_backtrace b c) refl refl (attach_backtrace-Grows b c.operations) f
handle-IsFilled (Event.symbols x) c f = record { rows = f.rows; shown = f.shown; stored = f.stored }

pub search-IsFilled :
    (q : Query) (c : Controller) → IsFilled c → IsFilled (on_filter_button_clicked q c)
unfolding on_filter_button_clicked
search-IsFilled q c f = record {
  rows = refl;
  shown = subst (AllLead (length c.operations.objects)) (sym (on_filter_button_clicked-list q c)) (
      AllLead-keep _ (holds c.operations.objects (accepts q)) c.operations.list_memory_operation
        f.stored);
  stored = f.stored;
}

pub AllLead-object :
    (objects : List MemoryOperation) (rs : List ℕ) (i : ℕ)
    → AllLead (length objects) rs
    → i < length rs
    → (o : MemoryOperation) × (row_operation objects rs i ≡ some o)
unfolding row_operation
AllLead-object objects [] i h less = absurd (omega arith)
AllLead-object objects (r ∷ rs) zero h less = get_elem?-some objects r h.0
AllLead-object objects (r ∷ rs) (suc i) h less = AllLead-object objects rs i h.1 (omega arith)

pub row_of_index : (n row col : ℕ) {p : ℕ × ℕ} → index n row col ≡ some p → row < n
unfolding index column_count
row_of_index n row col e = ground arith
