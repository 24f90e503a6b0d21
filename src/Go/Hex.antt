-- ===== src/Go/Hex.antt =====
-- `hex.EncodeToString` and `hex.DecodeString`.
use open_chat.Prelude.{
  ℕ, suc, ◌+◌, ◌-◌, ◌*◌, ◌/◌, ◌%◌, ◌<◌, ◌≡◌, ◌≢◌, refl, ◌&&◌, Option, none, some, [], ◌∷◌, arith,
  leb, ltb, if◌then◌else◌, length,
}
use open_chat.Go.Bytes.{Bytes, IsBytes}
use open_chat.Go.Base64.{IsPrintable}

digit : ℕ → ℕ
digit n = if ltb n 10 then 48 + n else 87 + n

unfoldable pub encode : Bytes → Bytes
unfolding digit
encode [] = []
encode (b ∷ bs) = digit (b / 16) ∷ digit (b % 16) ∷ encode bs

-- Both cases of the letters are read.
value : ℕ → Option ℕ
value c =
    if leb 48 c && leb c 57
    then some (c - 48)
    else if leb 97 c && leb c 102
    then some (c - 87)
    else if leb 65 c && leb c 70
    then some (c - 55)
    else none

-- The byte of two digits in front of what is decoded already.
join : Option ℕ → Option ℕ → Option Bytes → Option Bytes
join (some h) (some l) (some bs) = some ((h * 16 + l) ∷ bs)
join _ _ _ = none

-- An odd length and a byte that is no hexadecimal digit are errors.
unfoldable pub decode : Bytes → Option Bytes
unfolding value join
decode [] = some []
decode (h ∷ []) = none
decode (h ∷ l ∷ rest) = join (value h) (value l) (decode rest)

value-digit : (n : ℕ) → n < 16 → value (digit n) ≡ some n
unfolding value digit
value-digit n h = ground arith

pub encode-IsPrintable : (b : Bytes) → IsBytes b → IsPrintable (encode b)
unfolding encode
encode-IsPrintable [] h = tt
encode-IsPrintable (x ∷ b) h = (ground arith, (ground arith, encode-IsPrintable b h.1))

pub encode_ne : (b : Bytes) → b ≢ [] → encode b ≢ []
unfolding encode
encode_ne [] h = λ e. h refl
encode_ne (x ∷ b) h = λ e. absurd cc

pub decode-encode : (b : Bytes) → IsBytes b → decode (encode b) ≡ some b
unfolding decode encode
decode-encode [] h = refl
decode-encode (b ∷ bs) h =
    let high = value-digit (b / 16) (omega arith) in
    let low = value-digit (b % 16) (omega arith) in
    rw (high, low, decode-encode bs h.1) (ground arith)

-- A decoded text is twice as long as its bytes.
pub length-decode : (s b : Bytes) → decode s ≡ some b → length s ≡ 2 * length b
unfolding decode
length-decode [] [] e = refl
length-decode [] (x ∷ xs) e = cc
length-decode (h ∷ []) b e = cc
length-decode (h ∷ l ∷ rest) b e =
    join-length (value h) (value l) (decode rest) b (λ r x. length-decode rest r x) e
  where
    join-length :
        (x y : Option ℕ) (o : Option Bytes) (b : Bytes)
        → ((r : Bytes) → o ≡ some r → length rest ≡ 2 * length r)
        → join x y o ≡ some b
        → suc (suc (length rest)) ≡ 2 * length b
    join-length none y o b ih e = cc
    join-length (some x) none o b ih e = cc
    join-length (some x) (some y) none b ih e = cc
    join-length (some x) (some y) (some r) b ih e = ground (arith, ih r refl)
