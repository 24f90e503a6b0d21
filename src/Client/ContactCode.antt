-- ===== src/Client/ContactCode.antt =====
-- pkg/client/contactcode.go: both public keys of a user as one text to share.
use open_chat.Prelude.{
  ℕ, ◌≡◌, refl, ◌&&◌, not, none, some, ◌++◌, arith, length, length-append, take, drop, ◌==◌, subst,
  ap, ◌∙◌, take_front, drop_front, if◌then◌else◌, Result, ok, err,
}
use open_chat.Go.Bytes.{Bytes, IsBytes, codes, fit, fit_full}
use open_chat.Go.Hex
use open_chat.Go.Base64
use open_chat.Go.Base64.{IsPrintable, encode-IsPrintable, decode-encode}
use open_chat.Go.Text.{
  trim_space, contains_byte, split_once, strip_prefix, has_prefix, trim_space-printable,
}
use open_chat.Client.Wallet.{Wallet, decode_recipient_x25519}

-- What is wrong with a pasted code.
pub data CodeError : Type 0 where
  invalid_code : CodeError
  wrong_length : ℕ → CodeError
  no_colon : CodeError
  invalid_address : CodeError
  invalid_key : CodeError

pub record ParsedContact : Type 0 where
  pub address : Bytes
  pub x25519_pub : Bytes
  pub x25519_pub_hex : Bytes

abbrev pub colon : ℕ
colon = 58

abbrev pub contact_code_prefix : Bytes
contact_code_prefix = codes "oc1:"

unfoldable pub my_contact_code : Wallet → Bytes
my_contact_code w =
    contact_code_prefix ++ Base64.encode (w.keys.signing_public ++ w.keys.encryption_public)

abbrev pub contact_of : Bytes → Bytes → ParsedContact
contact_of addr key = record {
  address = Hex.encode addr;
  x25519_pub = key;
  x25519_pub_hex = Hex.encode key;
}

unfoldable pub parse_colon_form : Bytes → Result CodeError ParsedContact
parse_colon_form code = elim (split_once colon code).1 [
  | none ↦ err no_colon
  | some rest ↦ elim (Hex.decode (trim_space (split_once colon code).0)) [
    | none ↦ err invalid_address
    | some addr ↦
        if not (length addr == 32)
        then err invalid_address
        else elim (decode_recipient_x25519 (trim_space rest)) [
          | none ↦ err invalid_key
          | some key ↦ ok (contact_of addr key)
        ]
  ]
]

abbrev pub without_prefix : Bytes → Bytes
without_prefix code = elim (strip_prefix contact_code_prefix code) [
  | none ↦ code
  | some rest ↦ rest
]

unfoldable pub parse_packed_form : Bytes → Result CodeError ParsedContact
parse_packed_form code = elim (Base64.decode (without_prefix code)) [
  | none ↦ err invalid_code
  | some raw ↦
      if not (length raw == 64)
      then err (wrong_length (length raw))
      else ok (contact_of (take 32 raw) (fit 32 (drop 32 raw)))
]

unfoldable pub parse_contact_code : Bytes → Result CodeError ParsedContact
parse_contact_code code =
    let trimmed = trim_space code in
    if contains_byte colon trimmed && not (has_prefix contact_code_prefix trimmed)
    then parse_colon_form trimmed
    else parse_packed_form trimmed

my_contact_code-IsPrintable :
    (w : Wallet)
    → IsBytes (w.keys.signing_public ++ w.keys.encryption_public)
    → IsPrintable (my_contact_code w)
unfolding my_contact_code
my_contact_code-IsPrintable w h =
    let body = encode-IsPrintable (w.keys.signing_public ++ w.keys.encryption_public) h in
    ground (arith, body)

take_both :
    (a b : Bytes)
    → length a ≡ 32
    → length b ≡ 32
    → (length (a ++ b) ≡ 64) × (take 32 (a ++ b) ≡ a) × (fit 32 (drop 32 (a ++ b)) ≡ b)
take_both a b la lb = (
  omega (arith, length-append a b),
  subst (λ (n : ℕ). take n (a ++ b) ≡ a) la (take_front a b),
  subst (λ (n : ℕ). fit 32 (drop n (a ++ b)) ≡ b) la
      (ap (fit 32) (drop_front a b) ∙ fit_full 32 b lb),
)

parse_packed_form-both :
    (a b : Bytes)
    → IsBytes (a ++ b)
    → length a ≡ 32
    → length b ≡ 32
    → parse_packed_form (contact_code_prefix ++ Base64.encode (a ++ b)) ≡ ok (contact_of a b)
unfolding parse_packed_form strip_prefix
parse_packed_form-both a b bytes la lb =
    let (whole, front, back) = take_both a b la lb in
    rw (parse_packed_form, decode-encode (a ++ b) bytes, whole, front, back) refl

-- The code that a user shares is read back as their address and their encryption key, where the two
-- keys have 32 bytes each.
pub parse_contact_code-my_contact_code :
    (w : Wallet)
    → IsBytes (w.keys.signing_public ++ w.keys.encryption_public)
    → length w.keys.signing_public ≡ 32
    → length w.keys.encryption_public ≡ 32
    → parse_contact_code (my_contact_code w)
      ≡ ok (contact_of w.keys.signing_public w.keys.encryption_public)
unfolding parse_contact_code my_contact_code strip_prefix
parse_contact_code-my_contact_code w bytes ls le =
    let a = w.keys.signing_public in
    let b = w.keys.encryption_public in
    rw (trim_space-printable (my_contact_code w) (my_contact_code-IsPrintable w bytes))
      (ground (arith, parse_packed_form-both a b bytes ls le))
