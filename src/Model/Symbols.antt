-- ===== src/Model/Symbols.antt =====
-- server/Model/SymbolInfos.cpp: the symbols by address, a `QHash` as an association list.
use aleakd.Base.{ℕ, Bool, true, false, Option, none, some, List, [], ◌∷◌, ◌==◌, if◌then◌else◌}
use aleakd.Model.Records.{SymbolInfos}

abbrev pub SymbolInfosList : Type 0
SymbolInfosList = List (ℕ × SymbolInfos)

-- `QHash::contains`, `QHash::value` with the null pointer for a missing key, and `QHash::insert`.
abbrev pub contains : ℕ → SymbolInfosList → Bool
contains k [] = false
contains k ((j, v) ∷ es) = if j == k then true else contains k es

abbrev pub value : ℕ → SymbolInfosList → Option SymbolInfos
value k [] = none
value k ((j, v) ∷ es) = if j == k then some v else value k es

abbrev pub insert : ℕ → SymbolInfos → SymbolInfosList → SymbolInfosList
insert k v [] = (k, v) ∷ []
insert k v ((j, w) ∷ es) = if j == k then (k, v) ∷ es else (j, w) ∷ insert k v es

-- `SymbolInfosList::getByAddr`
unfoldable pub get_by_addr : SymbolInfosList → ℕ → Option SymbolInfos
get_by_addr l a = if contains a l then value a l else none
