-- ===== src/Client/Sealing.antt =====
-- pkg/crypto/cipher.go: what a sender seals and a recipient opens.
use open_chat.Prelude.{◌≡◌, refl, Option, none, some, arith, Result, ok, err, ◌>>=◌, split_chain}
use open_chat.Go.Bytes.{Bytes, codes}
use open_chat.Client.Primitives.{Primitives}

pub data SealError : Type 0 where
  no_shared_secret no_message_key no_nonce authentication_failed : SealError

pub record Sealed : Type 0 where
  pub ciphertext : Bytes
  pub nonce : Bytes
  pub sender_x25519_pub : Bytes

abbrev pub message_key_info : Bytes
message_key_info = codes "openchat/aes256gcm-message-key/v1"

abbrev pub or_seal_error : {A : Type 0} → SealError → Option A → Result SealError A
or_seal_error why none = err why
or_seal_error why (some a) = ok a

module _ (P : Primitives) where
  -- `aeadFromECDH`: the cipher is its key. AES takes every key of 32 bytes.
  unfoldable pub aead_from_ecdh : Bytes → Bytes → Result SealError Bytes
  aead_from_ecdh our_priv their_pub = do
    shared ← or_seal_error no_shared_secret (P.x25519 our_priv their_pub)
    or_seal_error no_message_key (P.hkdf_sha256 shared message_key_info 32)

  -- The nonce is what `rand.Read` gave, `none` where it failed.
  unfoldable pub encrypt : Bytes → Bytes → Bytes → Option Bytes → Bytes → Result SealError Sealed
  encrypt sender_priv sender_pub recipient_pub random plaintext = do
    key ← aead_from_ecdh sender_priv recipient_pub
    nonce ← or_seal_error no_nonce random
    ok (record {
      ciphertext = P.seal key nonce plaintext;
      nonce = nonce;
      sender_x25519_pub = sender_pub;
    })

  unfoldable pub decrypt : Bytes → Bytes → Bytes → Bytes → Result SealError Bytes
  decrypt recipient_priv sender_pub nonce ciphertext = do
    key ← aead_from_ecdh recipient_priv sender_pub
    or_seal_error authentication_failed (P.unseal key nonce ciphertext)

  -- The sender's key and the recipient's.
  aead_from_ecdh_comm :
      (a b p q : Bytes)
      → P.x25519 a P.basepoint ≡ some p
      → P.x25519 b P.basepoint ≡ some q
      → aead_from_ecdh a q ≡ aead_from_ecdh b p
  unfolding aead_from_ecdh
  aead_from_ecdh_comm a b p q own theirs = rw (P.exchange a b own theirs) refl

  -- What is sealed between two key pairs is opened with the recipient's private key and the public
  -- key that travels with it, and with the sender's private key and the recipient's public key.
  pub decrypt-encrypt :
      (a b p q : Bytes) (random : Option Bytes) (plaintext : Bytes) (sealed : Sealed)
      → P.x25519 a P.basepoint ≡ some p
      → P.x25519 b P.basepoint ≡ some q
      → encrypt a p q random plaintext ≡ ok sealed
      → (decrypt b sealed.sender_x25519_pub sealed.nonce sealed.ciphertext ≡ ok plaintext)
        × (decrypt a q sealed.nonce sealed.ciphertext ≡ ok plaintext)
  unfolding encrypt decrypt
  decrypt-encrypt a b p q random plaintext sealed own theirs e =
      let same = aead_from_ecdh_comm a b p q own theirs in
      let (key, rest, shared) = split_chain _ (aead_from_ecdh a q) e in
      let (nonce, made, drawn) = split_chain _ (or_seal_error no_nonce random) rest in
      let opened = P.unseal-seal key nonce plaintext in
      (ground (arith, same, shared, opened), ground (arith, same, shared, opened))

  -- The public key and the nonce travel as they are.
  pub encrypt-parts :
      (a p q nonce plaintext : Bytes) (sealed : Sealed)
      → encrypt a p q (some nonce) plaintext ≡ ok sealed
      → (sealed.sender_x25519_pub ≡ p) × (sealed.nonce ≡ nonce)
  unfolding encrypt
  encrypt-parts a p q nonce plaintext sealed e =
      let (key, made, shared) = split_chain _ (aead_from_ecdh a q) e in (ground arith, ground arith)
