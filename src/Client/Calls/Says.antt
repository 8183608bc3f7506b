-- ===== src/Client/Calls/Says.antt =====
-- What the library, lib, reports of each call of the program.
use aleakd.Base.{
  ℕ, ◌-◌, ◌^◌, ◌≤◌, ◌<◌, Bool, not, none, some, List, [], ◌∷◌, ◌++◌, ◌==◌, length, replicate,
  if◌then◌else◌,
}
use aleakd.Shared.Wire.{AllBelow}
use aleakd.Client.Wrapper.Sends.{Said}
use aleakd.Client.Calls.{Call}

abbrev pub TraceFits : List ℕ → Type 0
TraceFits trace = AllBelow (2 ^ 64) trace × (length trace ≤ 50)

abbrev pub IsWord : ℕ → Type 0
IsWord n = n < 2 ^ 64

-- Sizes, pointers and addresses of 64 bits, traces as long as `backtrace` was asked for, and names that
-- leave room for a closing 0.
abbrev pub CallFits : Call → Type 0
CallFits (Call.malloc size real trace) = IsWord size × IsWord real × TraceFits trace
CallFits (Call.calloc num size real trace) = IsWord size × IsWord real × TraceFits trace
CallFits (Call.realloc ptr size real trace) =
    IsWord ptr × IsWord size × IsWord real × TraceFits trace
CallFits (Call.posix_memalign size ret p trace) = IsWord size × IsWord p × TraceFits trace
CallFits (Call.aligned_alloc size real trace) = IsWord size × IsWord real × TraceFits trace
CallFits (Call.memalign size real trace) = IsWord size × IsWord real × TraceFits trace
CallFits (Call.valloc size real trace) = IsWord size × IsWord real × TraceFits trace
CallFits (Call.pvalloc size real trace) = IsWord size × IsWord real × TraceFits trace
CallFits (Call.free ptr trace) = IsWord ptr × TraceFits trace
CallFits (Call.pthread_create none) = Unit {0}
CallFits (Call.pthread_create (some id)) = IsWord id
CallFits (Call.pthread_setname_np id name) = IsWord id × (length name < 24)

abbrev pub CallsFit : List Call → Type 0
CallsFit [] = Unit {0}
CallsFit (call ∷ calls) = CallFits call × CallsFit calls

abbrev pub when : Bool → Said → List Said
when b s = if b then s ∷ [] else []

-- What is reported of a call, as the code does it: an operation when the real function gave something,
-- with the size that was asked for; a free of a pointer; a thread, or its name with zeros behind it. It
-- is not all that the calls did: a `calloc` is reported with the size of one element, and a `realloc`
-- that gives a null pointer is not reported, although with the size 0 it has freed its block.
unfoldable pub says : Call → List Said
says (Call.malloc size real trace) = when (not (real == 0)) (Said.memory 11 size real 0)
says (Call.calloc num size real trace) = when (not (real == 0)) (Said.memory 13 size real 0)
says (Call.realloc ptr size real trace) = when (not (real == 0)) (Said.memory 14 size real ptr)
says (Call.posix_memalign size ret p trace) = when (ret == 0) (Said.memory 15 size p 0)
says (Call.aligned_alloc size real trace) = when (not (real == 0)) (Said.memory 16 size real 0)
says (Call.memalign size real trace) = when (not (real == 0)) (Said.memory 17 size real 0)
says (Call.valloc size real trace) = when (not (real == 0)) (Said.memory 18 size real 0)
says (Call.pvalloc size real trace) = when (not (real == 0)) (Said.memory 19 size real 0)
says (Call.free ptr trace) = when (not (ptr == 0)) (Said.memory 12 0 0 ptr)
says (Call.pthread_create none) = []
says (Call.pthread_create (some id)) = Said.thread 31 id (replicate 24 0) ∷ []
says (Call.pthread_setname_np id name) =
    when (not (id == 0)) (Said.thread 32 id (name ++ replicate (24 - length name) 0))

unfoldable pub all_say : List Call → List Said
unfolding says
all_say [] = []
all_say (call ∷ calls) = says call ++ all_say calls
