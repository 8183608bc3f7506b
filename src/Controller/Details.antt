-- ===== src/Controller/Details.antt =====
-- The dialog of one operation: `onMemoryOperationDoubleClicked` of QApplicationWindowController.cpp, with
-- the rows of the backtrace.
use aleakd.Base.{
  ◌⊎◌, ℕ, ◌<◌, ◌^◌, ◌≡◌, refl, sym, ap, ◌∙◌, Bool, true, false, Option, none, some, List, [], ◌∷◌,
  ◌++◌, ◌==◌, if◌then◌else◌, map, sub64, add64, Bool-cases, ==→eq, eq→==, inl, inr, arith,
}
use aleakd.Model.Records.{Backtrace, MemoryOperation, SymbolInfos}
use aleakd.Model.Symbols.{SymbolInfosList, get_by_addr, contains, value, insert}
use aleakd.Controller.State.{
  Controller, add_symbol_infos, add_memory_operation, on_thread_operation, add_backtrace,
}
use aleakd.Controller.Events.{Event, handle, run}
use aleakd.View.Qt.{Qt, text}
use aleakd.View.OperationTable.{row_operation}

-- The address that the offset of a symbol counts from.
abbrev pub base_addr : SymbolInfos → ℕ
base_addr s = if s.symbol_addr == 0 then s.object_addr else s.symbol_addr

-- `iDiff`
abbrev pub offset_of : SymbolInfos → ℕ
offset_of s = sub64 s.addr (base_addr s)

-- "0x" in front of a hexadecimal number
abbrev pub hex_text : Qt → ℕ → List ℕ
hex_text q n = text "0x" ++ q.number_hex n

-- The columns behind the address.
unfoldable pub symbol_columns : Qt → Option SymbolInfos → List (List ℕ)
symbol_columns q none = []
symbol_columns q (some s) =
    hex_text q s.symbol_addr
    ∷ q.arg2 (text "%0+0x%1") s.symbol_name (q.number_hex (offset_of s))
    ∷ hex_text q s.object_addr
    ∷ s.object_name
    ∷ []

-- One row of the model.
unfoldable pub backtrace_row : Qt → SymbolInfosList → ℕ → List (List ℕ)
unfolding symbol_columns
backtrace_row q symbols addr = hex_text q addr ∷ symbol_columns q (get_by_addr symbols addr)

unfoldable pub backtrace_rows : Qt → SymbolInfosList → Option Backtrace → List (List (List ℕ))
unfolding backtrace_row
backtrace_rows q symbols none = []
backtrace_rows q symbols (some b) = map (backtrace_row q symbols) b.list_addr

-- The headers of the columns.
unfoldable pub backtrace_headers : List (List ℕ)
backtrace_headers =
    text "Address"
    ∷ text "Symbol addr"
    ∷ text "Symbol name"
    ∷ text "Object addr"
    ∷ text "Object name"
    ∷ []

-- The dialog: the headers and the rows of its table.
pub record Dialog : Type 0 where
  pub headers : List (List ℕ)
  pub rows : List (List (List ℕ))

unfoldable pub dialog_of : Qt → SymbolInfosList → Option MemoryOperation → Option Dialog
unfolding backtrace_rows backtrace_headers
dialog_of q symbols none = none
dialog_of q symbols (some o) =
    some (record { headers = backtrace_headers; rows = backtrace_rows q symbols o.back_trace })

-- `onMemoryOperationDoubleClicked`, for the row of the table that was clicked.
unfoldable pub on_memory_operation_double_clicked : Qt → ℕ → Controller → Option Dialog
unfolding dialog_of row_operation
on_memory_operation_double_clicked q row c =
    dialog_of q c.list_symbol_infos
      (row_operation c.operations.objects c.list_filter_memory_operation row)

-- No new client connects.
abbrev pub NoneConnects : List Event → Type 0
NoneConnects [] = Unit {0}
NoneConnects (Event.connected ∷ es) = ⊥
NoneConnects (_ ∷ es) = NoneConnects es

-- An entry that is there stays, and is the first one for its address.
insert-keeps :
    (k a : ℕ) (v : SymbolInfos) (l : SymbolInfosList)
    → (k == a) ≡ false
    → (contains a (insert k v l) ≡ contains a l) × (value a (insert k v l) ≡ value a l)
insert-keeps k a v [] ne = rw ne (refl, refl)
insert-keeps k a v ((j, w) ∷ l) ne = ground (arith, insert-keeps k a v l ne)

add_symbol_infos-keeps :
    (s : SymbolInfos) (c : Controller) (a : ℕ)
    → contains a c.list_symbol_infos ≡ true
    → let l = c.list_symbol_infos in
      let l' = (add_symbol_infos s c).list_symbol_infos in
      (contains a l' ≡ true) × (get_by_addr l' a ≡ get_by_addr l a)
unfolding add_symbol_infos get_by_addr
add_symbol_infos-keeps s c a known = elim (Bool-cases (contains s.addr c.list_symbol_infos)) [
  | inl e ↦ rw e (known, refl)
  | inr e ↦
      let ne : (s.addr == a) ≡ false = differ (s.addr == a) refl e in
      let (same, kept) = insert-keeps s.addr a s c.list_symbol_infos ne in
      rw e (same ∙ known, rw (same, kept) refl)
]
  where
    differ :
        (b : Bool) → (s.addr == a) ≡ b → contains s.addr c.list_symbol_infos ≡ false → b ≡ false
    differ false e h = refl
    differ true e h =
        sym known ∙ ap (λ k. contains k c.list_symbol_infos) (sym (==→eq s.addr a e)) ∙ h

handle-keeps :
    (e : Event) (c : Controller) (a : ℕ)
    → NoneConnects (e ∷ [])
    → contains a c.list_symbol_infos ≡ true
    → let l = c.list_symbol_infos in
      let l' = (handle e c).list_symbol_infos in
      (contains a l' ≡ true) × (get_by_addr l' a ≡ get_by_addr l a)
unfolding handle add_memory_operation on_thread_operation add_backtrace
handle-keeps Event.connected c a ok known = absurd ok
handle-keeps (Event.memory o) c a ok known = (known, refl)
handle-keeps (Event.thread o) c a ok known = (known, refl)
handle-keeps (Event.traced b) c a ok known = (known, refl)
handle-keeps (Event.symbols s) c a ok known = add_symbol_infos-keeps s c a known

NoneConnects-cons :
    (e : Event) (es : List Event) → NoneConnects (e ∷ es) → NoneConnects (e ∷ []) × NoneConnects es
NoneConnects-cons Event.connected es ok = absurd ok
NoneConnects-cons (Event.memory o) es ok = (tt, ok)
NoneConnects-cons (Event.thread o) es ok = (tt, ok)
NoneConnects-cons (Event.traced b) es ok = (tt, ok)
NoneConnects-cons (Event.symbols s) es ok = (tt, ok)

run-keeps :
    (es : List Event) (c : Controller) (a : ℕ)
    → NoneConnects es
    → contains a c.list_symbol_infos ≡ true
    → get_by_addr (run es c).list_symbol_infos a ≡ get_by_addr c.list_symbol_infos a
unfolding run
run-keeps [] c a ok known = refl
run-keeps (e ∷ es) c a ok known =
    let (one, rest) = NoneConnects-cons e es ok in
    let (known', same) = handle-keeps e c a one known in
    run-keeps es (handle e c) a rest known' ∙ same

insert-here :
    (k : ℕ) (v : SymbolInfos) (l : SymbolInfosList)
    → (contains k (insert k v l) ≡ true) × (value k (insert k v l) ≡ some v)
insert-here k v [] = let e : (k == k) ≡ true = eq→== k k refl in rw e (refl, refl)
insert-here k v ((j, w) ∷ l) = ground (arith, insert-here k v l)

add_symbol_infos-here :
    (s : SymbolInfos) (c : Controller)
    → contains s.addr c.list_symbol_infos ≡ false
    → let l = (add_symbol_infos s c).list_symbol_infos in
      (contains s.addr l ≡ true) × (get_by_addr l s.addr ≡ some s)
unfolding add_symbol_infos get_by_addr
add_symbol_infos-here s c unknown =
    let (here, what) = insert-here s.addr s c.list_symbol_infos in
    rw unknown (here, rw (here, what) refl)

-- The row of an address with its symbol: the five columns, with an offset that leads from the symbol to
-- the address, or from the object where the symbol has no address.
pub record IsSymbolRow (q : Qt) (s : SymbolInfos) (row : List (List ℕ)) : Type 0 where
  pub offset : ℕ
  pub fits : offset < 2 ^ 64
  pub columns :
      row
      ≡ (text "0x" ++ q.number_hex s.addr)
        ∷ (text "0x" ++ q.number_hex s.symbol_addr)
        ∷ q.arg2 (text "%0+0x%1") s.symbol_name (q.number_hex offset)
        ∷ (text "0x" ++ q.number_hex s.object_addr)
        ∷ s.object_name
        ∷ []
  pub leads :
      ((0 < s.symbol_addr) × (add64 s.symbol_addr offset ≡ s.addr))
      ⊎ ((s.symbol_addr ≡ 0) × (add64 s.object_addr offset ≡ s.addr))

offset_of-leads :
    (s : SymbolInfos)
    → s.addr < 2 ^ 64
    → s.symbol_addr < 2 ^ 64
    → s.object_addr < 2 ^ 64
    → ((0 < s.symbol_addr) × (add64 s.symbol_addr (offset_of s) ≡ s.addr))
      ⊎ ((s.symbol_addr ≡ 0) × (add64 s.object_addr (offset_of s) ≡ s.addr))
offset_of-leads s small sym_small object_small = elim (Bool-cases (s.symbol_addr == 0)) [
  | inl e ↦ rw e (inr (==→eq s.symbol_addr 0 e, omega arith))
  | inr e ↦ rw e (inl (positive s.symbol_addr e, omega arith))
]
  where
    positive : (n : ℕ) → (n == 0) ≡ false → 0 < n
    positive n e = ground arith

-- An address whose symbol has arrived keeps its row in the dialog, whatever arrives later, until a new
-- client connects: the columns of its symbol, with the offset that leads from the symbol, or from the
-- object where the symbol has no address, to the address that was asked for, modulo 2 ^ 64. The
-- addresses fit 64 bits.
pub run-backtrace_row :
    (q : Qt) (es : List Event) (c : Controller) (s : SymbolInfos)
    → NoneConnects es
    → contains s.addr c.list_symbol_infos ≡ false
    → s.addr < 2 ^ 64
    → s.symbol_addr < 2 ^ 64
    → s.object_addr < 2 ^ 64
    → IsSymbolRow q s (backtrace_row q (run es (add_symbol_infos s c)).list_symbol_infos s.addr)
unfolding backtrace_row symbol_columns
run-backtrace_row q es c s ok unknown small sym_small object_small = record {
  offset = offset_of s;
  fits = omega arith;
  columns =
      ap (λ o. hex_text q s.addr ∷ symbol_columns q o)
        (run-keeps es (add_symbol_infos s c) s.addr ok (add_symbol_infos-here s c unknown).0
          ∙ (add_symbol_infos-here s c unknown).1);
  leads = offset_of-leads s small sym_small object_small;
}
