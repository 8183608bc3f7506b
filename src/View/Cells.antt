-- ===== src/View/Cells.antt =====
-- The texts that the tables and the forms of the server share: `QVariant`, the text of a time, and
-- `textToTimeval` of QApplicationWindowController.cpp.
use aleakd.Base.{arith, ℕ, ◌<◌, ◌^◌, ◌≡◌, refl, ap, ◌∙◌, List, [], ◌∷◌, ◌++◌}
use aleakd.Global.{get_beautiful_number_string}
use aleakd.Model.Records.{TimeVal}
use aleakd.View.Qt.{Qt, QtLaws, time_format, comma}

-- The values of `QVariant` that the models give.
pub data Variant : Type 0 where
  invalid : Variant
  string : List ℕ → Variant
  color : ℕ → ℕ → ℕ → Variant

-- `QString("%0,%1").arg(tv.tv_sec).arg(tv.tv_usec, 6, 10, QChar('0'))`
unfoldable pub time_text : Qt → TimeVal → List ℕ
time_text q tv = q.arg2 time_format (q.number tv.tv_sec) (q.padded tv.tv_usec)

-- `Utils::getBeautifulNumberString(QString::number(n))`
unfoldable pub beautiful_number : Qt → ℕ → List ℕ
unfolding get_beautiful_number_string
beautiful_number q n = get_beautiful_number_string (q.number n)

-- The tokens of a text that is not empty; `split` gives at least one.
unfoldable pub tokens_to_timeval : Qt → List (List ℕ) → TimeVal → TimeVal
tokens_to_timeval q [] tv = tv
tokens_to_timeval q (a ∷ b ∷ []) tv = record { tv_sec = q.to_ulong a; tv_usec = q.to_ulong b }
tokens_to_timeval q (a ∷ ts) tv = record { tv_sec = q.to_ulong a; tv_usec = 0 }

-- `textToTimeval`: an empty text leaves the time as it is.
unfoldable pub text_to_timeval : Qt → List ℕ → TimeVal → TimeVal
unfolding tokens_to_timeval
text_to_timeval q [] tv = tv
text_to_timeval q (c ∷ cs) tv = tokens_to_timeval q (q.split (c ∷ cs)) tv

-- The seconds and microseconds fit a `long`.
abbrev pub TimeFits : TimeVal → Type 0
TimeFits tv = (tv.tv_sec < 2 ^ 63) × (tv.tv_usec < 2 ^ 63)

text_to_timeval-nonempty :
    (q : Qt) (a b : List ℕ) (tv : TimeVal)
    → text_to_timeval q (a ++ comma ∷ b) tv ≡ tokens_to_timeval q (q.split (a ++ comma ∷ b)) tv
unfolding text_to_timeval
text_to_timeval-nonempty q [] b tv = refl
text_to_timeval-nonempty q (c ∷ a) b tv = refl

-- A time that fits is read back from the text that it is shown as.
pub text_to_timeval-time_text :
    (q : Qt) (tv old : TimeVal)
    → QtLaws q
    → TimeFits tv
    → text_to_timeval q (time_text q tv) old ≡ tv
unfolding time_text tokens_to_timeval
text_to_timeval-time_text q tv old laws fits =
    ap (λ t. text_to_timeval q t old)
      (laws.arg2-time (q.number tv.tv_sec) (q.padded tv.tv_usec) (laws.number-AreDigits tv.tv_sec)
        (laws.padded-AreDigits tv.tv_usec))
    ∙ text_to_timeval-nonempty q (q.number tv.tv_sec) (q.padded tv.tv_usec) old
    ∙ ap (λ ts. tokens_to_timeval q ts old)
        (laws.split-comma (q.number tv.tv_sec) (q.padded tv.tv_usec)
          (laws.number-AreDigits tv.tv_sec) (laws.padded-AreDigits tv.tv_usec))
    ∙ rw
        (
          laws.to_ulong-number tv.tv_sec (omega arith),
          laws.to_ulong-padded tv.tv_usec (omega arith),
        )
        refl
