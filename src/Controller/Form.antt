-- ===== src/Controller/Form.antt =====
-- The fields above the list of operations, as the slots of QApplicationWindowController.cpp read and fill
-- them: the first part of `onFilterButtonClicked`, and `onThreadInfosDoubleClicked`.
use aleakd.Base.{
  true, ltb, lt→ltb, fun_ext, ◌∙◌, ap, refl, ◌^◌, ℕ, ◌<◌, ◌≡◌, Bool, false, not, ◌&&◌, ◌||◌, Option,
  none, some, List, [], ◌==◌, if◌then◌else◌, get_elem?, Bool-cases, inl, inr, arith,
}
use aleakd.Model.Records.{TimeVal, timer_clear, MemoryOperation, ThreadInfos}
use aleakd.Model.Objects.{holds, field_or}
use aleakd.Controller.Counters.{timer_is_set}
use aleakd.Controller.State.{Controller}
use aleakd.Controller.Filter.{Query, timer_lt, is_free, accepts, on_filter_button_clicked}
use aleakd.Model.Operations.Search.{keep}
use aleakd.Controller.Filter.Found.{on_filter_button_clicked-list}
use aleakd.View.Qt.{Qt, QtLaws}
use aleakd.View.Cells.{time_text, text_to_timeval, TimeFits, text_to_timeval-time_text}
use aleakd.View.ThreadTable.{row_thread}

-- The tabs of the window.
pub data Tab : Type 0 where
  memory_operation another : Tab

-- The two lines for times, the combo box with its index (-1 is none) and its text, the check box, and
-- the tab that is shown.
pub record Form : Type 0 where
  pub time_stamp_min : List ℕ
  pub time_stamp_max : List ℕ
  pub thread_index : Option ℕ
  pub thread_text : List ℕ
  pub not_free_only : Bool
  pub current_tab : Tab

unfoldable pub thread_id_of : Qt → List (ℕ × List ℕ) → Option ℕ → List ℕ → ℕ
thread_id_of q items none text = q.to_ulong text
thread_id_of q items (some i) text = field_or 0 (λ item. item.0) (get_elem? items i)

-- What `onFilterButtonClicked` reads from the fields.
unfoldable pub query_of : Qt → List (ℕ × List ℕ) → Form → Query
unfolding thread_id_of text_to_timeval
query_of q items f = record {
  tv_min = text_to_timeval q f.time_stamp_min timer_clear;
  tv_max = text_to_timeval q f.time_stamp_max timer_clear;
  thread_id = thread_id_of q items f.thread_index f.thread_text;
  not_freed = f.not_free_only;
}

-- The whole of `onFilterButtonClicked`
unfoldable pub search : Qt → Form → Controller → Controller
search q f c = on_filter_button_clicked (query_of q c.thread_id_combo_box f) c

-- A time, or nothing for one that is not set.
unfoldable pub set_time_text : Qt → TimeVal → List ℕ
unfolding time_text
set_time_text q tv = if timer_is_set tv then time_text q tv else []

unfoldable pub fill_form : Qt → Option ThreadInfos → Form → Form
unfolding set_time_text
fill_form q none f = f
fill_form q (some t) f = record f {
  time_stamp_min = set_time_text q t.tv_creation;
  time_stamp_max = set_time_text q t.tv_termination;
  thread_index = none;
  thread_text = q.number t.thread_id;
}

-- `onThreadInfosDoubleClicked`
unfoldable pub on_thread_infos_double_clicked : Qt → ℕ → Controller → Form → Form
unfolding fill_form row_thread
on_thread_infos_double_clicked q row c f =
    let f' = fill_form q (row_thread c.threads.objects c.threads.list_thread_infos row) f in
    record f' { current_tab = memory_operation }

-- An operation that a thread made: not before its creation and not after its end, if these are known.
abbrev pub made_by : ThreadInfos → MemoryOperation → Bool
made_by t o =
    (o.caller_thread_id == t.thread_id)
    && not (timer_is_set t.tv_creation && timer_lt o.tv_operation t.tv_creation)
    && not (timer_is_set t.tv_termination && timer_lt t.tv_termination o.tv_operation)

-- What the check box keeps out.
abbrev pub is_kept : Bool → MemoryOperation → Bool
is_kept not_free_only o = not (not_free_only && (is_free o.msg_code || o.freed))

unset_is_clear : (tv : TimeVal) → timer_is_set tv ≡ false → timer_clear ≡ tv
unset_is_clear tv e = ground arith

set_time_text-read :
    (q : Qt) (tv : TimeVal)
    → QtLaws q
    → TimeFits tv
    → text_to_timeval q (set_time_text q tv) timer_clear ≡ tv
unfolding set_time_text
set_time_text-read q tv laws fits = elim (Bool-cases (timer_is_set tv)) [
  | inl e ↦ rw e (text_to_timeval-time_text q tv timer_clear laws fits)
  | inr e ↦ rw e (unfold text_to_timeval in unset_is_clear tv e)
]

same_tests :
    (n free freed any same early late : Bool)
    → any ≡ true
    → (not (n && free) && not (n && freed) && not (any && not same) && not early && not late)
      ≡ ((same && not early && not late) && not (n && (free || freed)))
same_tests n free freed any same early late e = ground arith

accepts-made_by :
    (t : ThreadInfos) (b : Bool) (o : MemoryOperation)
    → 0 < t.thread_id
    → accepts
        (record {
          tv_min = t.tv_creation;
          tv_max = t.tv_termination;
          thread_id = t.thread_id;
          not_freed = b;
        })
        o
      ≡ (made_by t o && is_kept b o)
unfolding accepts
accepts-made_by t b o h =
    same_tests b (is_free o.msg_code) o.freed (ltb 0 t.thread_id)
      (o.caller_thread_id == t.thread_id)
      (timer_is_set t.tv_creation && timer_lt o.tv_operation t.tv_creation)
      (timer_is_set t.tv_termination && timer_lt t.tv_termination o.tv_operation)
      (lt→ltb 0 t.thread_id h)

abbrev query_for : ThreadInfos → Bool → Query
query_for t b = record {
  tv_min = t.tv_creation;
  tv_max = t.tv_termination;
  thread_id = t.thread_id;
  not_freed = b;
}

filled_query :
    (q : Qt) (items : List (ℕ × List ℕ)) (t : ThreadInfos) (f : Form) (tab : Tab)
    → QtLaws q
    → t.thread_id < 2 ^ 64
    → TimeFits t.tv_creation
    → TimeFits t.tv_termination
    → query_of q items (let g = fill_form q (some t) f in record g { current_tab = tab })
      ≡ query_for t f.not_free_only
unfolding query_of fill_form thread_id_of
filled_query q items t f tab laws id fits fits' =
    rw
      (
        set_time_text-read q t.tv_creation laws fits,
        set_time_text-read q t.tv_termination laws fits',
        laws.to_ulong-number t.thread_id id,
      )
      refl

-- A double click on a thread with an id and times that fit their types, and then a click on the filter
-- button: the list shows exactly the operations that this thread made, in their order, from its
-- creation to its end where these are known; the check box keeps out frees and what is freed.
pub on_thread_infos_double_clicked-search :
    (q : Qt) (row : ℕ) (c : Controller) (f : Form) {t : ThreadInfos}
    → QtLaws q
    → row_thread c.threads.objects c.threads.list_thread_infos row ≡ some t
    → (0 < t.thread_id) × (t.thread_id < 2 ^ 64)
    → TimeFits t.tv_creation
    → TimeFits t.tv_termination
    → (search q (on_thread_infos_double_clicked q row c f) c).list_filter_memory_operation
      ≡ keep
          (holds c.operations.objects (λ o. made_by t o && is_kept f.not_free_only o))
          c.operations.list_memory_operation
unfolding search on_thread_infos_double_clicked
on_thread_infos_double_clicked-search q row c f {t} laws found id fits fits' =
    ap
      (λ o.
        let g = fill_form q o f in
        (on_filter_button_clicked
          (query_of q c.thread_id_combo_box (record g { current_tab = memory_operation }))
          c).list_filter_memory_operation)
      found
    ∙ ap (λ k. (on_filter_button_clicked k c).list_filter_memory_operation)
        (filled_query q c.thread_id_combo_box t f memory_operation laws id.1 fits fits')
    ∙ on_filter_button_clicked-list (query_for t f.not_free_only) c
    ∙ ap (λ p. keep (holds c.operations.objects p) c.operations.list_memory_operation)
        (fun_ext (λ o. accepts-made_by t f.not_free_only o id.0))
