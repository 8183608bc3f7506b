-- ===== src/Controller/Chart/Points.antt =====
-- The points that `onTimerUpdate` of QApplicationWindowController.cpp adds to the chart.
pub mod Collected
pub mod Due
pub mod Again
pub mod Rising
use aleakd.Base.{
  ℕ, zero, suc, ◌≤◌, ◌<◌, ◌≡◌, refl, ap, Bool, false, not, ◌&&◌, List, [], ◌∷◌, ◌++◌, ◌==◌, ne→==,
  if◌then◌else◌, arith,
}
use aleakd.Model.Usage.{MemoryUsage, EntryList, has_key, value_or, insert, contains, value, update}

-- The point of a second, where there is one to show.
unfoldable pub is_new : MemoryUsage → ℕ → ℕ → ℕ → Bool
is_new u time last i = contains u i && not ((i == time) && (last == value u i))

-- The points of `rounds` seconds from `i` on: each second of which the memory in use is known, but for
-- the second shown last if its value has not changed.
unfoldable pub new_points : MemoryUsage → ℕ → ℕ → ℕ → ℕ → List (ℕ × ℕ)
unfolding is_new
new_points u time last zero i = []
new_points u time last (suc rounds) i =
    let rest = new_points u time last rounds (suc i) in
    if is_new u time last i then (i, value u i) ∷ rest else rest

-- Keys that rise from `lo` and stay under `hi`.
abbrev pub RisingKeys : ℕ → ℕ → EntryList → Type 0
RisingKeys lo hi [] = Unit {0}
RisingKeys lo hi ((k, v) ∷ es) = (lo ≤ k) × (k < hi) × RisingKeys (suc k) hi es

RisingKeys-lower :
    (lo lo' hi : ℕ) (es : EntryList) → lo' ≤ lo → RisingKeys lo hi es → RisingKeys lo' hi es
RisingKeys-lower lo lo' hi [] le h = tt
RisingKeys-lower lo lo' hi ((k, v) ∷ es) le h = (omega arith, h.1, h.2)

-- A key above all others is not there yet, and goes to the end.
has_key-above : (lo hi k : ℕ) (es : EntryList) → hi ≤ k → RisingKeys lo hi es → has_key k es ≡ false
has_key-above lo hi k [] le h = refl
has_key-above lo hi k ((j, v) ∷ es) le h =
    rw (ne→== j k (λ e. omega arith)) (has_key-above (suc j) hi k es le h.2)

value_or-above : (lo hi k : ℕ) (es : EntryList) → hi ≤ k → RisingKeys lo hi es → value_or 0 k es ≡ 0
value_or-above lo hi k [] le h = refl
value_or-above lo hi k ((j, v) ∷ es) le h =
    rw (ne→== j k (λ e. omega arith)) (value_or-above (suc j) hi k es le h.2)

insert-above :
    (lo hi k v : ℕ) (es : EntryList)
    → hi ≤ k
    → RisingKeys lo hi es
    → insert k v es ≡ es ++ (k, v) ∷ []
insert-above lo hi k v [] le h = refl
insert-above lo hi k v ((j, w) ∷ es) le h =
    rw (ne→== j k (λ e. omega arith)) (ap (◌∷◌ (j, w)) (insert-above (suc j) hi k v es le h.2))

RisingKeys-append :
    (lo hi k v : ℕ) (es : EntryList)
    → lo ≤ k
    → hi ≤ k
    → RisingKeys lo hi es
    → RisingKeys lo (suc k) (es ++ (k, v) ∷ [])
RisingKeys-append lo hi k v [] le le' h = (le, omega arith, tt)
RisingKeys-append lo hi k v ((j, w) ∷ es) le le' h =
    (h.0, omega arith, RisingKeys-append (suc j) hi k v es (omega arith) le' h.2)

-- The first and the last key, and what they are where there is none.
abbrev pub first_key : EntryList → ℕ
first_key [] = 0
first_key ((k, v) ∷ es) = k

abbrev pub last_key : ℕ → EntryList → ℕ
last_key d [] = d
last_key d ((k, v) ∷ es) = last_key k es

-- A memory usage with these entries, as updates with rising times leave it.
abbrev pub usage_of : EntryList → MemoryUsage
usage_of es = record {
  first_time = first_key es;
  last_time = last_key 0 es;
  list_size_by_timestamp = es;
}

first_key-append :
    (k v lo hi : ℕ) (es : EntryList)
    → 0 < lo
    → RisingKeys lo hi es
    → (if first_key es == 0 then k else first_key es) ≡ first_key (es ++ (k, v) ∷ [])
first_key-append k v lo hi [] pos h = refl
first_key-append k v lo hi ((j, w) ∷ es) pos h = rw (ne→== j 0 (λ e. omega arith)) refl

last_key-append : (d k v : ℕ) (es : EntryList) → last_key d (es ++ (k, v) ∷ []) ≡ k
last_key-append d k v [] = refl
last_key-append d k v ((j, w) ∷ es) = last_key-append j k v es

-- An update with a later time adds its entry.
update-above :
    (lo hi k v : ℕ) (es : EntryList)
    → 0 < lo
    → hi ≤ k
    → RisingKeys lo hi es
    → update (usage_of es) k v ≡ usage_of (es ++ (k, v) ∷ [])
unfolding update
update-above lo hi k v es pos le h =
    rw
      (
        value_or-above lo hi k es le h,
        insert-above lo hi k v es le h,
        first_key-append k v lo hi es pos h,
        last_key-append 0 k v es,
      )
      refl
