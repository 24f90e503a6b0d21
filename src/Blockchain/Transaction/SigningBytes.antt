-- ===== src/Blockchain/Transaction/SigningBytes.antt =====
-- What the canonical bytes of a transaction determine, and what they leave open.
use mathlib.Core.List.{append_assoc}
use open_chat.Prelude.{◌≡◌, ◌++◌, arith, length, append_inj, ok}
use open_chat.Go.Bytes.{Bytes}
use open_chat.Go.BigEndian.{put_u64, put_u64_inj, length-put_u64}
use open_chat.Crypto.{Crypto}
use open_chat.Blockchain.Transaction.{
  Transaction, IsTyped, signing_bytes, decode_address, sign, verify, hash,
}

-- Two transactions have equal fields, up to the signature.
pub record SameBody (t u : Transaction) : Type 0 where
  pub from : t.from ≡ u.from
  pub to : t.to ≡ u.to
  pub ciphertext : t.ciphertext ≡ u.ciphertext
  pub nonce_aead : t.nonce_aead ≡ u.nonce_aead
  pub ephemeral_pubkey : t.ephemeral_pubkey ≡ u.ephemeral_pubkey
  pub nonce : t.nonce ≡ u.nonce
  pub timestamp : t.timestamp ≡ u.timestamp

-- Where the three open lengths agree, equal signing bytes mean equal fields, up to the signature.
pub signing_bytes_inj :
    (t u : Transaction)
    → IsTyped t
    → IsTyped u
    → length t.from ≡ length u.from
    → length t.to ≡ length u.to
    → length t.ciphertext ≡ length u.ciphertext
    → signing_bytes t ≡ signing_bytes u
    → SameBody t u
unfolding signing_bytes
signing_bytes_inj t u ht hu lf lt lc e =
    let (e1, r1) = append_inj t.from _ u.from _ lf e in
    let (e2, r2) = append_inj t.to _ u.to _ lt r1 in
    let (e3, r3) = append_inj t.ciphertext _ u.ciphertext _ lc r2 in
    let (e4, r4) = append_inj t.nonce_aead _ u.nonce_aead _ (omega arith) r3 in
    let (e5, r5) = append_inj t.ephemeral_pubkey _ u.ephemeral_pubkey _ (omega arith) r4 in
    let (e6, r6) =
      append_inj (put_u64 t.nonce) _ (put_u64 u.nonce) _
        (omega (arith, length-put_u64 t.nonce, length-put_u64 u.nonce)) r5 in
    record {
      from = e1;
      to = e2;
      ciphertext = e3;
      nonce_aead = e4;
      ephemeral_pubkey = e5;
      nonce = put_u64_inj t.nonce u.nonce ht.nonce_word hu.nonce_word e6;
      timestamp = put_u64_inj t.timestamp u.timestamp ht.timestamp_word hu.timestamp_word r6;
    }

-- The transactions in which `tail` ends the recipient, or begins the ciphertext.
abbrev pub longer_to : Transaction → Bytes → Transaction
longer_to t tail = record t { to = t.to ++ tail }

abbrev pub longer_ciphertext : Transaction → Bytes → Transaction
longer_ciphertext t tail = record t { ciphertext = tail ++ t.ciphertext }

shift-signing_bytes :
    (t : Transaction) (tail : Bytes)
    → signing_bytes (longer_to t tail) ≡ signing_bytes (longer_ciphertext t tail)
unfolding signing_bytes
shift-signing_bytes t tail = simp append_assoc

-- A transaction whose recipient's end is moved to the front of its ciphertext has the same hash,
-- and passes or fails `verify` alike.
pub shifted_recipient :
    (c : Crypto) (t : Transaction) (tail : Bytes)
    → (verify c (longer_to t tail) ≡ verify c (longer_ciphertext t tail))
      × (hash c (longer_to t tail) ≡ hash c (longer_ciphertext t tail))
unfolding verify hash
shifted_recipient c t tail =
    (ground (arith, shift-signing_bytes t tail), ground (arith, shift-signing_bytes t tail))

-- What `sign` signs with the key that the sender's address spells, `verify` accepts.
pub verify-sign :
    (c : Crypto) (t : Transaction) (priv : Bytes)
    → decode_address t.from ≡ ok (c.public_key priv)
    → verify c (sign c t priv) ≡ ok tt
unfolding verify sign signing_bytes
verify-sign c t priv h = ground (arith, c.verify-sign priv (signing_bytes t))
