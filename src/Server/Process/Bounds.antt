-- ===== src/Server/Process/Bounds.antt =====
-- `doProcessMsgV1`, `doProcessMsg` and `doProcessDataRead` of MemOpRcptServer.cpp on any bytes: how
-- much is taken, and how little can be left.
use aleakd.Base.{
  length-drop, drop, ◌==◌, ltb→ge, inr, ltb→lt, ◌+◌, inl, ltb, Bool-cases, none, some, Option, ℕ,
  zero, suc, ◌≡◌, ◌≤◌, ◌<◌, ◌⊎◌, ℤ, pos, negsuc, List, length, arith,
}
use aleakd.Server.Process.{
  Fault, read_past_end, write_past_end, overlapping_copy, count_msg, after_msg, process_data_read,
  process_loop, version_size, read_header, read_le, finish, process_blocks, add_version,
  process_msg_v1, process_msg, then_block, ThreadData, SymbolInfosData, Server, memory_block,
  app_block, symbols_named, symbolinfos_block, backtrace_block, thread_named, thread_block, Header,
  Result, returned, fault, out_of_fuel, Flow, next, ended,
}

-- The receiver never writes past the end of an object.
abbrev pub OnlyReads : Fault → Type 0
OnlyReads read_past_end = Unit {0}
OnlyReads write_past_end = ⊥
OnlyReads overlapping_copy = ⊥

-- Every later block starts at the end of the header, unless an earlier one has taken the message.
abbrev FlowFits : {H : Type 0} → ℕ → ℕ → List ℕ → Flow H → Type 0
FlowFits bound c buf (next n s) = (29 ≤ n) × (n ≤ length buf) × ((n ≡ 29) ⊎ (c < bound))
FlowFits bound c buf (ended (returned (pos zero) s)) = length buf < 465
FlowFits bound c buf (ended (fault f)) = OnlyReads f
FlowFits bound c buf _ = ⊥

-- A result of `size` bytes more than `least`, or none for want of data.
abbrev pub TakesUpTo : {H : Type 0} → ℕ → ℕ → List ℕ → Result H ℤ → Type 0
TakesUpTo least most buf (returned (pos zero) s) = length buf < most
TakesUpTo least most buf (returned (pos (suc n)) s) = (least ≤ suc n) × (suc n ≤ length buf)
TakesUpTo least most buf (returned (negsuc n) s) = Unit {0}
TakesUpTo least most buf (fault f) = OnlyReads f
TakesUpTo least most buf out_of_fuel = ⊥

module _ {H : Type 0} (h : Header) (buf : List ℕ) where
  then-fits :
      (j k : ℕ) (flow : Flow H) (block : ℕ → Server H → Flow H)
      → j ≤ k
      → FlowFits j h.msg_code buf flow
      → ((n : ℕ) (s : Server H)
          → FlowFits j h.msg_code buf (next n s)
          → FlowFits k h.msg_code buf (block n s))
      → FlowFits k h.msg_code buf (then_block flow block)
  then-fits j k (next n s) block le f keep = keep n s f
  then-fits j k (ended (returned (pos zero) s)) block le f keep = f
  then-fits j k (ended (returned (pos (suc n)) s)) block le f keep = absurd f
  then-fits j k (ended (returned (negsuc n) s)) block le f keep = absurd f
  then-fits j k (ended (fault e)) block le f keep = f
  then-fits j k (ended out_of_fuel) block le f keep = absurd f

  app-fits : (s : Server H) → 29 ≤ length buf → FlowFits 10 h.msg_code buf (app_block h 29 s)
  unfolding app_block
  app-fits s le = ground arith

  memory-fits :
      (n : ℕ) (s : Server H)
      → FlowFits 10 h.msg_code buf (next n s)
      → FlowFits 20 h.msg_code buf (memory_block h buf n s)
  unfolding memory_block
  memory-fits n s f = ground arith

  thread_named-fits :
      (d : ThreadData) (n : ℕ) (s : Server H) (name : Option (List ℕ))
      → FlowFits 40 h.msg_code buf (next n s)
      → FlowFits 40 h.msg_code buf (thread_named h d n s name)
  unfolding thread_named
  thread_named-fits d n s none f = tt
  thread_named-fits d n s (some t) f = f

  thread-fits :
      (n : ℕ) (s : Server H)
      → FlowFits 20 h.msg_code buf (next n s)
      → FlowFits 40 h.msg_code buf (thread_block h buf n s)
  unfolding thread_block
  thread-fits n s f = ground arith

  backtrace-fits :
      (n : ℕ) (s : Server H)
      → FlowFits 40 h.msg_code buf (next n s)
      → FlowFits 50 h.msg_code buf (backtrace_block h buf n s)
  unfolding backtrace_block
  backtrace-fits n s f = ground arith

  symbols_named-fits :
      (d : SymbolInfosData) (n : ℕ) (s : Server H) (object symbol : Option (List ℕ))
      → FlowFits 60 h.msg_code buf (next n s)
      → FlowFits 60 h.msg_code buf (symbols_named d n s object symbol)
  unfolding symbols_named
  symbols_named-fits d n s (some a) (some b) f = f
  symbols_named-fits d n s (some a) none f = tt
  symbols_named-fits d n s none b f = tt

  symbolinfos-fits :
      (n : ℕ) (s : Server H)
      → FlowFits 50 h.msg_code buf (next n s)
      → FlowFits 60 h.msg_code buf (symbolinfos_block h buf n s)
  unfolding symbolinfos_block
  symbolinfos-fits n s f = ground arith

  finish-fits :
      (flow : Flow H) → FlowFits 60 h.msg_code buf flow → TakesUpTo 29 465 buf (finish flow)
  finish-fits (next zero s) f = absurd (omega arith)
  finish-fits (next (suc n) s) f = (f.0, f.1)
  finish-fits (ended (returned (pos zero) s)) f = f
  finish-fits (ended (returned (pos (suc n)) s)) f = absurd f
  finish-fits (ended (returned (negsuc n) s)) f = absurd f
  finish-fits (ended (fault e)) f = f
  finish-fits (ended out_of_fuel) f = absurd f

  blocks-fit : (s : Server H) → 29 ≤ length buf → TakesUpTo 29 465 buf (process_blocks h buf s)
  unfolding process_blocks
  blocks-fit s le = finish-fits _ (
      then-fits 50 60 _ (symbolinfos_block h buf) (omega arith)
        (then-fits 40 50 _ (backtrace_block h buf) (omega arith)
          (then-fits 20 40 _ (thread_block h buf) (omega arith)
            (then-fits 10 20 (app_block h 29 s) (memory_block h buf) (omega arith) (app-fits s le)
              memory-fits)
            thread-fits)
          backtrace-fits)
        symbolinfos-fits)

module _ {H : Type 0} (s : Server H) where
  v1-fits : (buf : List ℕ) → TakesUpTo 29 465 buf (process_msg_v1 s buf)
  unfolding process_msg_v1
  v1-fits buf = elim (Bool-cases (ltb (length buf) 29)) [
    | inl short ↦ rw short (omega (arith, ltb→lt (length buf) 29 short))
    | inr enough ↦ rw enough (blocks-fit (read_header buf) buf s (ltb→ge (length buf) 29 enough))
  ]

  add_version-fits :
      (buf b : List ℕ) (r : Result H ℤ)
      → length buf ≡ 2 + length b
      → TakesUpTo 29 465 b r
      → TakesUpTo 31 467 buf (add_version r)
  unfolding add_version
  add_version-fits buf b (returned (pos zero) t) e f = omega arith
  add_version-fits buf b (returned (pos (suc n)) t) e f =
      let sum : version_size + suc n ≡ suc (suc (suc n)) = omega arith in rw sum (omega arith)
  add_version-fits buf b (returned (negsuc n) t) e f = tt
  add_version-fits buf b (fault x) e f = f
  add_version-fits buf b out_of_fuel e f = f

  -- `doProcessMsg` on any bytes: it takes at least 31 bytes and no more than there are, or says
  -- that data is wanted when there are fewer than 467, or gives a negative result, or reads (never
  -- writes) past the end of an array inside a message.
  pub process_msg_bounds : (buf : List ℕ) → TakesUpTo 31 467 buf (process_msg s buf)
  unfolding process_msg
  process_msg_bounds buf = elim (Bool-cases (ltb (length buf) 2)) [
    | inl short ↦ rw short (omega (arith, ltb→lt (length buf) 2 short))
    | inr enough ↦ rw enough (elim (Bool-cases (read_le 2 buf == 1)) [
      | inl one ↦ rw one (
          add_version-fits buf (drop 2 buf) (process_msg_v1 s (drop 2 buf))
            (omega (arith, length-drop 2 buf, ltb→ge (length buf) 2 enough)) (v1-fits (drop 2 buf)))
      | inr not_one ↦ rw not_one tt
    ])
  ]

-- What `doProcessDataRead` may return for `size_read` bytes done before and `buf` left: all but a
-- rest too short for a message is taken, or an error is passed on.
abbrev pub Leaves : {H : Type 0} → ℕ → List ℕ → Result H ℤ → Type 0
Leaves size_read buf (returned (pos n) s) =
    (size_read ≤ n) × (n ≤ size_read + length buf) × (size_read + length buf < n + 467)
Leaves size_read buf (returned (negsuc n) s) = Unit {0}
Leaves size_read buf (fault f) = OnlyReads f
Leaves size_read buf out_of_fuel = ⊥

Leaves-drop :
    {H : Type 0} (size_read n : ℕ) (buf : List ℕ) (r : Result H ℤ)
    → n ≤ length buf
    → Leaves (size_read + n) (drop n buf) r
    → Leaves size_read buf r
Leaves-drop size_read n buf (returned (pos m) s) le f = omega (arith, length-drop n buf)
Leaves-drop size_read n buf (returned (negsuc m) s) le f = tt
Leaves-drop size_read n buf (fault e) le f = f
Leaves-drop size_read n buf out_of_fuel le f = f

after_msg_bounds :
    {H : Type 0} (continue : ℕ → List ℕ → Server H → Result H ℤ) (size_read : ℕ) (buf : List ℕ)
    (r : Result H ℤ)
    → ((n : ℕ) (t : Server H)
        → suc n ≤ length buf
        → Leaves
            (size_read + suc n)
            (drop (suc n) buf)
            (continue (size_read + suc n) (drop (suc n) buf) t))
    → TakesUpTo 31 467 buf r
    → Leaves size_read buf (after_msg continue size_read buf r)
unfolding after_msg
after_msg_bounds continue size_read buf (returned (pos zero) s) go f = omega arith
after_msg_bounds continue size_read buf (returned (pos (suc n)) s) go f =
    Leaves-drop size_read (suc n) buf _ f.1 (go n (count_msg s) f.1)
after_msg_bounds continue size_read buf (returned (negsuc n) s) go f = tt
after_msg_bounds continue size_read buf (fault e) go f = f
after_msg_bounds continue size_read buf out_of_fuel go f = f

-- One more round than there are bytes is enough for the loop, and it leaves fewer than 467 bytes.
process_loop_bounds :
    {H : Type 0} (fuel size_read : ℕ) (buf : List ℕ) (s : Server H)
    → length buf < fuel
    → Leaves size_read buf (process_loop fuel size_read buf s)
unfolding process_loop
process_loop_bounds zero size_read buf s enough = absurd (omega arith)
process_loop_bounds (suc fuel) size_read buf s enough = elim (Bool-cases (ltb 0 (length buf))) [
  | inl more ↦ rw more (
      after_msg_bounds (process_loop fuel) size_read buf (process_msg s buf)
        (λ n t le.
          process_loop_bounds fuel (size_read + suc n) (drop (suc n) buf) t
            (omega (arith, length-drop (suc n) buf)))
        (process_msg_bounds s buf))
  | inr done ↦ rw done (omega (arith, ltb→ge 0 (length buf) done))
]

-- `doProcessDataRead` on any bytes always ends by itself: with a negative result, with a read past
-- the end of an array (never a write), or with a count of bytes that is within the data and leaves
-- fewer than 467.
pub process_data_read_bounds :
    {H : Type 0} (s : Server H) (buf : List ℕ) → Leaves 0 buf (process_data_read s buf)
unfolding process_data_read
process_data_read_bounds s buf = process_loop_bounds (suc (length buf)) 0 buf s (omega arith)
