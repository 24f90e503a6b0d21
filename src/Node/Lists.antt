-- ===== src/Node/Lists.antt =====
-- internal/config/config.go, splitCSV: lists in environment variables.
use open_chat.Prelude.{
  ℕ, ◌<◌, ◌≡◌, ◌≢◌, refl, ap, ◌∙◌, false, not, List, [], ◌∷◌, ◌++◌, ◌==◌, Bool-cases, inl, inr,
  if◌then◌else◌, arith, keep, map, All, All-append,
}
use open_chat.Go.Bytes.{Bytes, eq_bytes, eq_bytes_ne}
use open_chat.Go.Text.{trim_space, split, contains_byte, trim_space-printable}
use open_chat.Go.Base64.{IsPrintable}

abbrev pub comma : ℕ
comma = 44

unfoldable pub split_csv : Bytes → List Bytes
split_csv s =
    if eq_bytes (trim_space s) []
    then []
    else keep (λ (p : Bytes). not (eq_bytes p [])) (map trim_space (split comma s))

-- How a deployment writes such a list.
abbrev pub join_csv : List Bytes → Bytes
join_csv [] = []
join_csv (a ∷ []) = a
join_csv (a ∷ b ∷ rest) = a ++ comma ∷ join_csv (b ∷ rest)

-- An address or an endpoint: printable, not empty, without a comma.
abbrev pub IsItem : Bytes → Type 0
IsItem a = IsPrintable a × (a ≢ []) × (contains_byte comma a ≡ false)

split_last : (a : Bytes) → contains_byte comma a ≡ false → split comma a ≡ a ∷ []
unfolding split contains_byte
split_last [] h = refl
split_last (x ∷ a) h = rw (split_last a (ground (arith, h))) (ground (arith, h))

split_front :
    (c : ℕ) (s : Bytes) → (front : Bytes) × (rest : List Bytes) × (split c s ≡ front ∷ rest)
unfolding split
split_front c [] = ([], [], refl)
split_front c (x ∷ s) =
    let (front, rest, e) = split_front c s in
    elim (Bool-cases (x == c)) [
      | inl h ↦ ([], front ∷ rest, rw (e, h) refl)
      | inr h ↦ (x ∷ front, rest, rw (e, h) refl)
    ]

split_first :
    (a s : Bytes) → contains_byte comma a ≡ false → split comma (a ++ comma ∷ s) ≡ a ∷ split comma s
unfolding split contains_byte
split_first [] s h = let (front, rest, e) = split_front comma s in rw (e) refl
split_first (x ∷ a) s h = rw (split_first a s (ground (arith, h))) (ground (arith, h))

split-join_csv :
    (a : Bytes) (items : List Bytes)
    → All IsItem (a ∷ items)
    → split comma (join_csv (a ∷ items)) ≡ a ∷ items
split-join_csv a [] h = split_last a h.0.2
split-join_csv a (b ∷ items) h =
    split_first a (join_csv (b ∷ items)) h.0.2
    ∙ ap (λ (r : List Bytes). a ∷ r) (split-join_csv b items h.1)

join_csv-IsPrintable :
    (a : Bytes) (items : List Bytes) → All IsItem (a ∷ items) → IsPrintable (join_csv (a ∷ items))
join_csv-IsPrintable a [] h = h.0.0
join_csv-IsPrintable a (b ∷ items) h =
    All-append (λ (x : ℕ). (32 < x) × (x < 128)) a (comma ∷ join_csv (b ∷ items)) h.0.0
      ((omega arith, omega arith), join_csv-IsPrintable b items h.1)

join_csv_ne : (a : Bytes) (items : List Bytes) → All IsItem (a ∷ items) → join_csv (a ∷ items) ≢ []
join_csv_ne a [] h = h.0.1
join_csv_ne [] (b ∷ items) h = λ e. h.0.1 refl
join_csv_ne (x ∷ a) (b ∷ items) h = λ e. absurd cc

trimmed_items :
    (items : List Bytes)
    → All IsItem items
    → keep (λ (p : Bytes). not (eq_bytes p [])) (map trim_space items) ≡ items
trimmed_items [] h = refl
trimmed_items (a ∷ items) h =
    rw (trim_space-printable a h.0.0, eq_bytes_ne a [] h.0.1)
      (ap (λ (r : List Bytes). a ∷ r) (trimmed_items items h.1))

-- A list that was written with commas between is read back, if it has an item and its items are
-- printable texts that are not empty and have no comma.
pub split_csv-join_csv :
    (a : Bytes) (items : List Bytes)
    → All IsItem (a ∷ items)
    → split_csv (join_csv (a ∷ items)) ≡ a ∷ items
unfolding split_csv
split_csv-join_csv a items h =
    rw
      (
        split_csv,
        trim_space-printable (join_csv (a ∷ items)) (join_csv-IsPrintable a items h),
        eq_bytes_ne (join_csv (a ∷ items)) [] (join_csv_ne a items h),
        split-join_csv a items h,
      )
      (trimmed_items (a ∷ items) h)
