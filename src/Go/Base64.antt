-- ===== src/Go/Base64.antt =====
-- `base64.RawURLEncoding`: the alphabet of URLs, with no padding. The decoder skips line breaks and
-- ignores the bits that are left over.
use open_chat.Prelude.{
  ℕ, ◌+◌, ◌-◌, ◌*◌, ◌/◌, ◌%◌, ◌<◌, ◌≡◌, refl, not, ◌&&◌, ◌||◌, Option, none, some, [], ◌∷◌, arith,
  leb, ltb, ◌==◌, if◌then◌else◌, keep, All,
}
use open_chat.Go.Bytes.{Bytes, IsBytes}

unfoldable pub symbol : ℕ → ℕ
symbol n =
    if ltb n 26
    then 65 + n
    else if ltb n 52
    then 71 + n
    else if ltb n 62
    then n - 4
    else if n == 62
    then 45
    else 95

unfoldable pub encode : Bytes → Bytes
unfolding symbol
encode [] = []
encode (a ∷ []) = symbol (a / 4) ∷ symbol (a % 4 * 16) ∷ []
encode (a ∷ b ∷ []) = symbol (a / 4) ∷ symbol (a % 4 * 16 + b / 16) ∷ symbol (b % 16 * 4) ∷ []
encode (a ∷ b ∷ c ∷ rest) =
    symbol (a / 4)
    ∷ symbol (a % 4 * 16 + b / 16)
    ∷ symbol (b % 16 * 4 + c / 64)
    ∷ symbol (c % 64)
    ∷ encode rest

unfoldable pub sextet : ℕ → Option ℕ
sextet c =
    if leb 65 c && leb c 90
    then some (c - 65)
    else if leb 97 c && leb c 122
    then some (c - 71)
    else if leb 48 c && leb c 57
    then some (c + 4)
    else if c == 45
    then some 62
    else if c == 95
    then some 63
    else none

unfoldable pub two : Option ℕ → Option ℕ → Option Bytes
two (some x) (some y) = some ((x * 4 + y / 16) ∷ [])
two _ _ = none

unfoldable pub three : Option ℕ → Option ℕ → Option ℕ → Option Bytes
three (some x) (some y) (some z) = some ((x * 4 + y / 16) ∷ (y % 16 * 16 + z / 4) ∷ [])
three _ _ _ = none

unfoldable pub four : Option ℕ → Option ℕ → Option ℕ → Option ℕ → Option Bytes → Option Bytes
four (some x) (some y) (some z) (some w) (some rest) =
    some ((x * 4 + y / 16) ∷ (y % 16 * 16 + z / 4) ∷ (z % 4 * 64 + w) ∷ rest)
four _ _ _ _ _ = none

unfoldable pub decode_symbols : Bytes → Option Bytes
unfolding sextet two three four
decode_symbols [] = some []
decode_symbols (x ∷ []) = none
decode_symbols (x ∷ y ∷ []) = two (sextet x) (sextet y)
decode_symbols (x ∷ y ∷ z ∷ []) = three (sextet x) (sextet y) (sextet z)
decode_symbols (x ∷ y ∷ z ∷ w ∷ rest) =
    four (sextet x) (sextet y) (sextet z) (sextet w) (decode_symbols rest)

unfoldable pub decode : Bytes → Option Bytes
unfolding decode_symbols
decode s = decode_symbols (keep (λ (c : ℕ). not (c == 10 || c == 13)) s)

sextet-symbol : (n : ℕ) → n < 64 → sextet (symbol n) ≡ some n
unfolding sextet symbol
sextet-symbol n h = ground arith

-- Printable, and no line break.
symbol_printable : (n : ℕ) → n < 64 → (32 < symbol n) × (symbol n < 128)
unfolding symbol
symbol_printable n h = ground arith

abbrev pub IsPrintable : Bytes → Type 0
IsPrintable s = All (λ (x : ℕ). (32 < x) × (x < 128)) s

pub encode-IsPrintable : (b : Bytes) → IsBytes b → IsPrintable (encode b)
unfolding encode
encode-IsPrintable [] h = tt
encode-IsPrintable (a ∷ []) h =
    (symbol_printable (a / 4) (omega arith), (symbol_printable (a % 4 * 16) (omega arith), tt))
encode-IsPrintable (a ∷ b ∷ []) h = (
  symbol_printable (a / 4) (omega arith),
  (
    symbol_printable (a % 4 * 16 + b / 16) (omega arith),
    (symbol_printable (b % 16 * 4) (omega arith), tt),
  ),
)
encode-IsPrintable (a ∷ b ∷ c ∷ rest) (ha, (hb, (hc, hr))) = (
  symbol_printable (a / 4) (omega arith),
  (
    symbol_printable (a % 4 * 16 + b / 16) (omega arith),
    (
      symbol_printable (b % 16 * 4 + c / 64) (omega arith),
      (symbol_printable (c % 64) (omega arith), encode-IsPrintable rest hr),
    ),
  ),
)

decode_symbols-encode : (b : Bytes) → IsBytes b → decode_symbols (encode b) ≡ some b
unfolding decode_symbols encode two three four
decode_symbols-encode [] h = refl
decode_symbols-encode (a ∷ []) h =
    rw (sextet-symbol (a / 4) (omega arith), sextet-symbol (a % 4 * 16) (omega arith))
      (ground arith)
decode_symbols-encode (a ∷ b ∷ []) h =
    rw
      (
        sextet-symbol (a / 4) (omega arith),
        sextet-symbol (a % 4 * 16 + b / 16) (omega arith),
        sextet-symbol (b % 16 * 4) (omega arith),
      )
      (ground arith)
decode_symbols-encode (a ∷ b ∷ c ∷ rest) (ha, (hb, (hc, hr))) =
    rw
      (
        sextet-symbol (a / 4) (omega arith),
        sextet-symbol (a % 4 * 16 + b / 16) (omega arith),
        sextet-symbol (b % 16 * 4 + c / 64) (omega arith),
        sextet-symbol (c % 64) (omega arith),
        decode_symbols-encode rest hr,
      )
      (ground arith)

keep-printable : (s : Bytes) → IsPrintable s → keep (λ (c : ℕ). not (c == 10 || c == 13)) s ≡ s
keep-printable [] h = refl
keep-printable (x ∷ s) h = ground (arith, keep-printable s h.1)

-- The decoder reads back what the encoder wrote.
pub decode-encode : (b : Bytes) → IsBytes b → decode (encode b) ≡ some b
unfolding decode
decode-encode b h =
    rw (keep-printable (encode b) (encode-IsPrintable b h)) (decode_symbols-encode b h)
