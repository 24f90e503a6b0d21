-- ===== src/Go/Text.antt =====
-- What the code uses of package `strings`, on the bytes of a text.
use mathlib.Core.List.{reverse, reverse-cons, reverse-reverse}
use open_chat.Prelude.{
  ℕ, zero, suc, ◌≡◌, refl, Bool, true, false, Option, none, some, List, [], ◌∷◌, arith, leb, ◌==◌,
  ◌||◌, if◌then◌else◌, length, All, All-append, map,
}
use open_chat.Go.Bytes.{Bytes}
use open_chat.Go.Base64.{IsPrintable}

-- What follows a prefix, if the text has it.
unfoldable pub strip_prefix : Bytes → Bytes → Option Bytes
strip_prefix [] s = some s
strip_prefix (p ∷ ps) [] = none
strip_prefix (p ∷ ps) (c ∷ s) = let rest = strip_prefix ps s in if p == c then rest else none

abbrev pub has_prefix : Bytes → Bytes → Bool
has_prefix p s = elim (strip_prefix p s) [ none ↦ false | some rest ↦ true ]

-- The white space of Unicode, in UTF-8.
abbrev pub spaces : List Bytes
spaces =
    (9 ∷ [])
    ∷ (10 ∷ [])
    ∷ (11 ∷ [])
    ∷ (12 ∷ [])
    ∷ (13 ∷ [])
    ∷ (32 ∷ [])
    ∷ (194 ∷ 133 ∷ [])
    ∷ (194 ∷ 160 ∷ [])
    ∷ (225 ∷ 154 ∷ 128 ∷ [])
    ∷ (226 ∷ 128 ∷ 128 ∷ [])
    ∷ (226 ∷ 128 ∷ 129 ∷ [])
    ∷ (226 ∷ 128 ∷ 130 ∷ [])
    ∷ (226 ∷ 128 ∷ 131 ∷ [])
    ∷ (226 ∷ 128 ∷ 132 ∷ [])
    ∷ (226 ∷ 128 ∷ 133 ∷ [])
    ∷ (226 ∷ 128 ∷ 134 ∷ [])
    ∷ (226 ∷ 128 ∷ 135 ∷ [])
    ∷ (226 ∷ 128 ∷ 136 ∷ [])
    ∷ (226 ∷ 128 ∷ 137 ∷ [])
    ∷ (226 ∷ 128 ∷ 138 ∷ [])
    ∷ (226 ∷ 128 ∷ 168 ∷ [])
    ∷ (226 ∷ 128 ∷ 169 ∷ [])
    ∷ (226 ∷ 128 ∷ 175 ∷ [])
    ∷ (226 ∷ 129 ∷ 159 ∷ [])
    ∷ (227 ∷ 128 ∷ 128 ∷ [])
    ∷ []

-- The rest after the first of the texts that the text begins with.
unfoldable pub strip_any : List Bytes → Bytes → Option Bytes
strip_any [] s = none
strip_any (t ∷ ts) s =
    let later = strip_any ts s in elim (strip_prefix t s) [ some rest ↦ some rest | none ↦ later ]

-- Each turn drops a character, so the length is fuel enough.
unfoldable pub trim_left : ℕ → List Bytes → Bytes → Bytes
trim_left zero texts s = s
trim_left (suc fuel) texts s = elim (strip_any texts s) [
  | none ↦ s
  | some rest ↦ trim_left fuel texts rest
]

abbrev pub trim_right : Bytes → Bytes
trim_right s = reverse (trim_left (length s) (map reverse spaces) (reverse s))

-- strings.TrimSpace
unfoldable pub trim_space : Bytes → Bytes
unfolding trim_left
trim_space s = trim_right (trim_left (length s) spaces s)

-- strings.Contains, for a byte.
unfoldable pub contains_byte : ℕ → Bytes → Bool
contains_byte c [] = false
contains_byte c (x ∷ s) = let rest = contains_byte c s in if x == c then true else rest

-- strings.SplitN at a byte, into two; the second is missing where the byte is.
unfoldable pub split_once : ℕ → Bytes → Bytes × Option Bytes
split_once c [] = ([], none)
split_once c (x ∷ s) =
    let (front, back) = split_once c s in if x == c then ([], some s) else (x ∷ front, back)

-- strings.Split at a byte.
unfoldable pub split : ℕ → Bytes → List Bytes
split c [] = [] ∷ []
split c (x ∷ s) = elim (split c s) [
  | [] ↦ []
  | front ∷ rest ↦ if x == c then [] ∷ front ∷ rest else (x ∷ front) ∷ rest
]

-- The first byte of a text is not printable.
abbrev pub IsForeign : Bytes → Type 0
IsForeign [] = ⊥
IsForeign (x ∷ xs) = (leb x 32 || leb 128 x ≡ true)

strip_any-printable :
    (texts : List Bytes) (s : Bytes)
    → All IsForeign texts
    → IsPrintable s
    → strip_any texts s ≡ none
unfolding strip_any strip_prefix
strip_any-printable [] s f h = refl
strip_any-printable ([] ∷ texts) s f h = absurd f.0
strip_any-printable ((x ∷ xs) ∷ texts) [] f h = rw (strip_any-printable texts [] f.1 h) refl
strip_any-printable ((x ∷ xs) ∷ texts) (c ∷ s) f h =
    ground (arith, f.0, h.0, strip_any-printable texts (c ∷ s) f.1 h)

trim_left-printable :
    (fuel : ℕ) (texts : List Bytes) (s : Bytes)
    → All IsForeign texts
    → IsPrintable s
    → trim_left fuel texts s ≡ s
unfolding trim_left
trim_left-printable zero texts s f h = refl
trim_left-printable (suc fuel) texts s f h = rw (trim_left, strip_any-printable texts s f h) refl

IsPrintable-reverse : (s : Bytes) → IsPrintable s → IsPrintable (reverse s)
IsPrintable-reverse [] h = tt
IsPrintable-reverse (x ∷ s) h =
    rw (reverse-cons x s) (All-append _ (reverse s) (x ∷ []) (IsPrintable-reverse s h.1) (h.0, tt))

spaces-IsForeign : All IsForeign spaces × All IsForeign (map reverse spaces)
spaces-IsForeign = ground arith

-- A printable text has nothing to trim.
pub trim_space-printable : (s : Bytes) → IsPrintable s → trim_space s ≡ s
unfolding trim_space
trim_space-printable s h =
    rw
      (
        trim_left-printable (length s) spaces s spaces-IsForeign.0 h,
        trim_left-printable (length s) (map reverse spaces) (reverse s) spaces-IsForeign.1
            (IsPrintable-reverse s h),
      )
      (reverse-reverse s)
