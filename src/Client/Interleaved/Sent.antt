-- ===== src/Client/Interleaved/Sent.antt =====
-- The messages that the threads of lib/server-comm.c have sent, hold and will make, and their sizes.
use aleakd.Shared.Messages.{Header, Message, header, header_bytes, message_bytes, data_bytes}
use aleakd.Shared.Wire.{le_bytes, length-le_bytes}
use aleakd.Client.Comm.{buffer_size}
use aleakd.Shared.Messages.Layout.{length-header_bytes}
use aleakd.Base.{
  arith, length-append, ◌≤◌, ◌+◌, length, ℕ, ◌≡◌, refl, sym, ap, ◌∙◌, Option, none, some, List, [],
  ◌∷◌, ◌++◌, append_assoc, append-nil, map, get_elem?, ◌==◌, if◌then◌else◌, Bool-cases, inl, inr,
}
use aleakd.Client.Interleaved.{Body, message_of, Request, Made, made_bytes, Thread, World}

-- The bytes of what was sent.
unfoldable pub stream : List (ℕ × Made) → List ℕ
stream [] = []
stream ((i, m) ∷ ms) = made_bytes m ++ stream ms

pub stream-append :
    (ms : List (ℕ × Made)) (i : ℕ) (m : Made)
    → stream (ms ++ (i, m) ∷ []) ≡ stream ms ++ made_bytes m
unfolding stream
stream-append [] i m = append-nil (made_bytes m)
stream-append ((j, k) ∷ ms) i m =
    ap (◌++◌ (made_bytes k)) (stream-append ms i m)
    ∙ sym (append_assoc (made_bytes k) (stream ms) (made_bytes m))

-- What a thread has sent, what it holds, and what it has still to do.
unfoldable pub sent_by : ℕ → List (ℕ × Made) → List Made
sent_by i [] = []
sent_by i ((j, m) ∷ ms) = let rest = sent_by i ms in if j == i then m ∷ rest else rest

pub sent_by-append :
    (i j : ℕ) (m : Made) (ms : List (ℕ × Made))
    → sent_by i (ms ++ (j, m) ∷ []) ≡ sent_by i ms ++ (if j == i then m ∷ [] else [])
unfolding sent_by
sent_by-append i j m [] = refl
sent_by-append i j m ((k, n) ∷ ms) = elim (Bool-cases (k == i)) [
  | inl e ↦ rw e (ap (◌∷◌ n) (sent_by-append i j m ms))
  | inr e ↦ rw e (sent_by-append i j m ms)
]

abbrev pub held_list : Option Made → List Made
held_list none = []
held_list (some m) = m ∷ []

abbrev pub held_by : Option Thread → List Made
held_by none = []
held_by (some t) = held_list t.held

abbrev pub todo_of : Option Thread → List Request
todo_of none = []
todo_of (some t) = t.todo

abbrev pub requests : List Made → List Request
requests ms = map (λ m. m.request) ms

-- The messages of a thread, in the order in which the thread comes to them.
abbrev pub work_of : List Made → Option Thread → List Request
work_of sent t = requests sent ++ (requests (held_by t) ++ todo_of t)

abbrev pub work : ℕ → World → List Request
work i w = work_of (sent_by i w.log) (get_elem? w.threads i)

-- A message fits into the transfer buffer: its version and its header have 31 bytes.
abbrev pub no_header : Header
no_header = record { time_sec = 0; time_usec = 0; thread_id = 0; msg_num = 0; msg_code = 0 }

abbrev pub IsSmall : Request → Type 0
IsSmall r = 31 + length (data_bytes (message_of r.body no_header)) ≤ buffer_size

abbrev pub AllSmall : List Request → Type 0
AllSmall [] = Unit {0}
AllSmall (r ∷ rs) = IsSmall r × AllSmall rs

pub length-message : (m : Message) → length (message_bytes m) ≡ 31 + length (data_bytes m)
unfolding message_bytes
length-message m =
    length-append (le_bytes 2 1) (header_bytes (header m) ++ data_bytes m)
    ∙ omega (
      arith,
      length-le_bytes 2 1,
      length-append (header_bytes (header m)) (data_bytes m),
      length-header_bytes (header m),
    )

data_bytes-message_of :
    (b : Body) (h : Header) → data_bytes (message_of b h) ≡ data_bytes (message_of b no_header)
unfolding data_bytes message_of
data_bytes-message_of (Body.memory c d) h = refl
data_bytes-message_of (Body.thread c d) h = refl
data_bytes-message_of (Body.backtrace d) h = refl
data_bytes-message_of (Body.symbolinfos d) h = refl

pub small-made_bytes : (m : Made) → IsSmall m.request → length (made_bytes m) ≤ buffer_size
small-made_bytes m small = omega (
  arith,
  length-message (message_of m.request.body m.header),
  ap length (data_bytes-message_of m.request.body m.header),
)

pub AllSmall-append : (rs ss : List Request) → AllSmall (rs ++ ss) → AllSmall ss
AllSmall-append [] ss h = h
AllSmall-append (r ∷ rs) ss h = AllSmall-append rs ss h.1

pub requests-append :
    (ms : List Made) (m : Made) (rs : List Request)
    → requests (ms ++ m ∷ []) ++ rs ≡ requests ms ++ (m.request ∷ rs)
requests-append [] m rs = refl
requests-append (k ∷ ms) m rs = ap (◌∷◌ k.request) (requests-append ms m rs)
