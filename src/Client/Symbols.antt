-- ===== src/Client/Symbols.antt =====
-- lib/backtrace.c: the functions that print a trace with the symbols of its addresses.
use native.Mathlib.Nat.{pow-suc}
use aleakd.Base.{
  leb→gt, leb→le, ltb→lt, ==→eq, inl, inr, ltb→lt, ==→eq, ℕ, zero, suc, ◌+◌, ◌-◌, ◌*◌, ◌/◌, ◌%◌,
  ◌^◌, ◌<◌, ◌≡◌, refl, sym, Option, none, some, List, [], ◌∷◌, ◌++◌, map, ltb, leb, ◌==◌,
  if◌then◌else◌, Bool-cases, inl, inr, text, arith,
}
use aleakd.Client.Wrapper.{Symbol}

-- What `dladdr1` gives where it finds something: the symbol, and the load bias of the object.
pub record Place : Type 0 where
  pub symbol : Symbol
  pub load_bias : ℕ

-- A number in base 16 with at most `k` digits and one more, as `printf` writes it.
abbrev pub hex_digit : ℕ → ℕ
hex_digit n = if ltb n 10 then 48 + n else 87 + n

unfoldable pub hex_number : ℕ → ℕ → List ℕ
hex_number zero n = hex_digit (n % 16) ∷ []
hex_number (suc k) n =
    let more = hex_number k (n / 16) ++ hex_digit (n % 16) ∷ [] in
    if ltb n 16 then hex_digit n ∷ [] else more

-- `%p` and `%#tx`
unfoldable pub pointer_text : ℕ → List ℕ
unfolding hex_number
pointer_text p = if p == 0 then text "(nil)" else text "0x" ++ hex_number 15 p

unfoldable pub offset_text : ℕ → List ℕ
unfolding hex_number
offset_text d = if d == 0 then text "0" else text "0x" ++ hex_number 15 d

abbrev pub at_pointer : ℕ → List ℕ
at_pointer addr = text "[" ++ (pointer_text addr ++ text "]\n")

-- The sign and the offset of an address from the one of its symbol.
unfoldable pub signed_offset : ℕ → ℕ → List ℕ
unfolding offset_text
signed_offset addr base =
    if leb base addr then b'+' ∷ offset_text (addr - base) else b'-' ∷ offset_text (base - addr)

unfoldable pub offset_line : List ℕ → List ℕ → ℕ → ℕ → List ℕ
unfolding signed_offset pointer_text
offset_line file name addr base =
    file ++ (text "(" ++ (name ++ (signed_offset addr base ++ (text ") " ++ at_pointer addr))))

-- The second loop of `backtrace_symbols_print` for one address, with its parts: the load bias takes
-- the place of the object's address, and of that of a symbol without a name.
unfoldable pub named_line : ℕ → ℕ → ℕ → Option (List ℕ) → Option (List ℕ) → List ℕ
unfolding offset_line
named_line addr bias symbol_addr none name = at_pointer addr
named_line addr bias symbol_addr (some []) name = at_pointer addr
named_line addr bias symbol_addr (some (c ∷ cs)) none =
    if bias == 0
    then (c ∷ cs) ++ (text "() " ++ at_pointer addr)
    else offset_line (c ∷ cs) [] addr bias
named_line addr bias symbol_addr (some (c ∷ cs)) (some name) =
    offset_line (c ∷ cs) name addr symbol_addr

unfoldable pub symbol_line : ℕ → Option Place → List ℕ
unfolding named_line
symbol_line addr none = at_pointer addr
symbol_line addr (some p) =
    let s = p.symbol in named_line addr p.load_bias s.symbol_addr s.object_name s.symbol_name

-- `backtrace_symbols_print`
unfoldable pub symbols_print : (ℕ → Option Place) → List ℕ → List (List ℕ)
unfolding symbol_line
symbols_print dladdr1 addrs = map (λ addr. symbol_line addr (dladdr1 addr)) addrs

-- `%s`, which writes "(null)" for a null pointer.
unfoldable pub name_text : Option (List ℕ) → List ℕ
name_text none = text "(null)"
name_text (some name) = name

unfoldable pub trace_line : ℕ → Symbol → List ℕ
unfolding pointer_text name_text
trace_line addr s =
    text "  0x"
    ++ (pointer_text addr
        ++ (text " => "
            ++ (name_text s.object_name ++ (text " (" ++ (name_text s.symbol_name ++ text ")\n")))))

-- `backtrace_print`
unfoldable pub trace_print : (ℕ → Symbol) → List ℕ → List (List ℕ)
unfolding trace_line
trace_print dladdr addrs = text "backtrace\n" ∷ map (λ addr. trace_line addr (dladdr addr)) addrs

-- The number that digits in base 16 stand for, behind those that gave `n`.
abbrev pub hex_value : ℕ → ℕ
hex_value c = if ltb c 58 then c - 48 else c - 87

pub read_hex : ℕ → List ℕ → ℕ
read_hex n [] = n
read_hex n (c ∷ cs) = read_hex (n * 16 + hex_value c) cs

read_hex-append : (n : ℕ) (cs ds : List ℕ) → read_hex n (cs ++ ds) ≡ read_hex (read_hex n cs) ds
unfolding read_hex
read_hex-append n [] ds = refl
read_hex-append n (c ∷ cs) ds = read_hex-append (n * 16 + hex_value c) cs ds

hex_value-digit : (n : ℕ) → n < 16 → hex_value (hex_digit n) ≡ n
hex_value-digit n h = ground arith

read_hex-number : (k n : ℕ) → n < 16 ^ suc k → read_hex 0 (hex_number k n) ≡ n
unfolding read_hex hex_number
read_hex-number zero n h = omega (arith, hex_value-digit (n % 16) (omega arith))
read_hex-number (suc k) n h = elim (Bool-cases (ltb n 16)) [
  | inl e ↦ rw e (omega (arith, hex_value-digit n (ltb→lt n 16 e)))
  | inr e ↦
      let front = read_hex-number k (n / 16) (omega (arith, pow-suc 16 (suc k))) in
      rw (e, read_hex-append 0 (hex_number k (n / 16)) (hex_digit (n % 16) ∷ []), front)
        (omega (arith, hex_value-digit (n % 16) (omega arith)))
]

-- The offset that a text stands for.
pub read_offset : List ℕ → ℕ
read_offset (zero_char ∷ x ∷ ds) = read_hex 0 ds
read_offset ds = 0

-- The address that a sign with its offset leads to.
pub read_signed : ℕ → List ℕ → ℕ
read_signed base [] = base
read_signed base (c ∷ ds) = if c == b'+' then base + read_offset ds else base - read_offset ds

read_offset-text : (d : ℕ) → d < 2 ^ 64 → read_offset (offset_text d) ≡ d
unfolding read_offset offset_text
read_offset-text d h = elim (Bool-cases (d == 0)) [
  | inl e ↦ rw e (sym (==→eq d 0 e))
  | inr e ↦ rw e (read_hex-number 15 d h)
]

-- For addresses of 64 bits, the sign and the offset behind the name of a symbol lead from the symbol's
-- address to the address of the trace.
pub read_signed-signed_offset :
    (addr base : ℕ)
    → addr < 2 ^ 64
    → base < 2 ^ 64
    → read_signed base (signed_offset addr base) ≡ addr
unfolding read_signed signed_offset
read_signed-signed_offset addr base h h' = elim (Bool-cases (leb base addr)) [
  | inl e ↦ rw (e, read_offset-text (addr - base) (omega arith)) (omega (arith, leb→le base addr e))
  | inr e ↦ rw (e, read_offset-text (base - addr) (omega arith)) (omega (arith, leb→gt base addr e))
]
