-- ===== src/Shared/Codes.antt =====
-- shared/global-const.h and `ALeakD_MsgLabel` of shared/common.c: the message codes.
use Prim.Native.String.{String}
use aleakd.Base.{ℕ, ◌≡◌, ◌==◌, if◌then◌else◌, List, [], ◌∷◌, arith}

-- `ALEAKD_MSG_VERSION`
abbrev pub msg_version : ℕ
msg_version = 1

-- `enum ALeakD_MsgCode`. The server casts any byte to the enumeration, so a value that no
-- enumerator has is kept too.
pub data MsgCode : Type 0 where
  unknown init dispose : MsgCode
  malloc free calloc realloc posix_memalign aligned_alloc memalign valloc pvalloc : MsgCode
  pthread_create pthread_set_name : MsgCode
  backtrace : MsgCode
  symbolinfos : MsgCode
  other : ℕ → MsgCode

-- The number of an enumerator.
unfoldable pub code : MsgCode → ℕ
code unknown = 0
code init = 1
code dispose = 2
code malloc = 11
code free = 12
code calloc = 13
code realloc = 14
code posix_memalign = 15
code aligned_alloc = 16
code memalign = 17
code valloc = 18
code pvalloc = 19
code pthread_create = 31
code pthread_set_name = 32
code backtrace = 41
code symbolinfos = 51
code (other n) = n

-- The enumerators, in the order of their numbers.
abbrev enumerators : List MsgCode
enumerators =
    unknown ∷ init ∷ dispose ∷ malloc ∷ free ∷ calloc ∷ realloc ∷ posix_memalign ∷ aligned_alloc
    ∷ memalign ∷ valloc ∷ pvalloc ∷ pthread_create ∷ pthread_set_name ∷ backtrace ∷ symbolinfos ∷ []

unfoldable pub find_code : ℕ → List MsgCode → MsgCode
find_code n [] = other n
find_code n (c ∷ cs) = if n == code c then c else find_code n cs

-- The cast `(ALeakD_MsgCode) header.msg_code`.
unfoldable pub of_code : ℕ → MsgCode
unfolding find_code code
of_code n = find_code n enumerators

-- `ALeakD_MsgLabel`
unfoldable pub msg_label : MsgCode → String
msg_label malloc = "malloc"
msg_label free = "free"
msg_label calloc = "calloc"
msg_label realloc = "realloc"
msg_label posix_memalign = "posix_memalign"
msg_label aligned_alloc = "aligned_alloc"
msg_label memalign = "memalign"
msg_label valloc = "valloc"
msg_label pvalloc = "pvalloc"
msg_label pthread_create = "pthread_create"
msg_label pthread_set_name = "pthread_set_name"
msg_label _ = ""

-- The cast and the number of an enumerator undo each other.
pub code-of_code : (n : ℕ) → code (of_code n) ≡ n
unfolding of_code code
code-of_code n = ground arith
