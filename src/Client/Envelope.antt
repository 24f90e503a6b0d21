-- ===== src/Client/Envelope.antt =====
-- pkg/client/tx.go: a sealed text as a signed transaction, and back. The clock is an argument.
use open_chat.Go.Int64.{word}
use open_chat.Prelude.{
  ◌<◌, ℕ, ◌≡◌, refl, ◌||◌, not, some, [], arith, length, ◌==◌, if◌then◌else◌, Result, ok, err,
}
use open_chat.Go.Bytes.{Bytes, IsBytes, fit, fit_full}
use open_chat.Go.Hex.{decode-encode}
use open_chat.Crypto.{Crypto}
use open_chat.Blockchain.Transaction
use open_chat.Blockchain.Transaction.{Transaction, IsTyped, decode_address}
use open_chat.Blockchain.Transaction.SigningBytes
use open_chat.Gateway.Wire.{SmsRequest, pb_from_tx}
use open_chat.Client.Primitives.{Primitives}
use open_chat.Client.Keys
use open_chat.Client.Keys.{AreMatched}
use open_chat.Client.Sealing.{Sealed, SealError, encrypt, decrypt, decrypt-encrypt, encrypt-parts}
use open_chat.Client.Wallet
use open_chat.Client.Wallet.{Wallet, next_nonce}

pub data OpenError : Type 0 where
  malformed : OpenError
  undecryptable : SealError → OpenError

abbrev pub opened : Result SealError Bytes → Result OpenError Bytes
opened (ok text) = ok text
opened (err why) = err (undecryptable why)

abbrev pub unsigned_tx : Wallet → Bytes → Sealed → ℕ → ℕ → Transaction
unsigned_tx w to_address sealed nonce now = record {
  from = Wallet.address w;
  to = to_address;
  ciphertext = sealed.ciphertext;
  nonce_aead = sealed.nonce;
  ephemeral_pubkey = sealed.sender_x25519_pub;
  nonce = nonce;
  timestamp = now;
  signature = [];
}

module _ (c : Crypto) where
  unfoldable pub build_tx : Wallet → Bytes → Sealed → ℕ → Transaction × Wallet
  build_tx w to_address sealed now =
      let (nonce, w') = next_nonce w in
      (Transaction.sign c (unsigned_tx w to_address sealed nonce now) w.keys.signing_private, w')

  -- The hash that the node reports for a message on the wire.
  unfoldable pub tx_hash_from_pb : SmsRequest → Bytes
  tx_hash_from_pb m = Transaction.hash c (record {
    from = m.from_address;
    to = m.to_address;
    ciphertext = m.ciphertext;
    nonce_aead = fit 12 m.nonce_aead;
    ephemeral_pubkey = fit 32 m.ephemeral_pubkey;
    nonce = m.nonce;
    timestamp = m.timestamp;
    signature = m.signature;
  })

  -- A message recovered from the chain has the hash of its transaction.
  pub tx_hash_from_pb-pb_from_tx :
      (tx : Transaction) → IsTyped tx → tx_hash_from_pb (pb_from_tx tx) ≡ Transaction.hash c tx
  unfolding tx_hash_from_pb pb_from_tx
  tx_hash_from_pb-pb_from_tx tx typed =
      rw (fit_full 12 tx.nonce_aead typed.nonce_aead_len)
        (rw (fit_full 32 tx.ephemeral_pubkey typed.ephemeral_len) refl)

module _ (c : Crypto) where
  pub build_tx-IsTyped :
      (w : Wallet) (to : Bytes) (sealed : Sealed) (now : ℕ)
      → length sealed.nonce ≡ 12
      → length sealed.sender_x25519_pub ≡ 32
      → now < word
      → IsTyped (build_tx c w to sealed now).0
  unfolding build_tx Transaction.sign next_nonce
  build_tx-IsTyped w to sealed now twelve size small = record {
    nonce_aead_len = twelve;
    ephemeral_len = size;
    nonce_word = omega arith;
    timestamp_word = small;
  }

module _ (P : Primitives) where
  unfoldable pub decrypt_incoming : Wallet → SmsRequest → Result OpenError Bytes
  decrypt_incoming w msg =
      if not (length msg.nonce_aead == 12) || not (length msg.ephemeral_pubkey == 32)
      then err malformed
      else opened (
          decrypt P w.keys.encryption_private (fit 32 msg.ephemeral_pubkey) (fit 12 msg.nonce_aead)
            msg.ciphertext)

  unfoldable pub decrypt_outgoing : Wallet → SmsRequest → Bytes → Result OpenError Bytes
  decrypt_outgoing w msg recipient_pub =
      if not (length msg.nonce_aead == 12)
      then err malformed
      else opened
          (decrypt P w.keys.encryption_private recipient_pub (fit 12 msg.nonce_aead) msg.ciphertext)

module _ (c : Crypto) (P : Primitives) where
  -- What a wallet with matched keys builds and signs, every node verifies, provided that its public
  -- key has 32 bytes.
  pub verify-build_tx :
      (w : Wallet) (to : Bytes) (sealed : Sealed) (now : ℕ)
      → AreMatched c P w.keys
      → IsBytes w.keys.signing_public
      → length w.keys.signing_public ≡ 32
      → Transaction.verify c (build_tx c w to sealed now).0 ≡ ok tt
  unfolding build_tx Wallet.address Keys.address decode_address next_nonce
  verify-build_tx w to sealed now matched bytes size =
      SigningBytes.verify-sign c (unsigned_tx w to sealed (next_nonce w).0 now)
        w.keys.signing_private
        (ground (arith, decode-encode w.keys.signing_public bytes, matched.signing))

  -- A text that one user sends, the other reads off the wire, and so does the sender with the
  -- recipient's public key: for matched keys of 32 bytes and a nonce of 12.
  pub decrypt-build_tx :
      (a b : Wallet) (to nonce plaintext : Bytes) (sealed : Sealed) (now : ℕ)
      → AreMatched c P a.keys
      → AreMatched c P b.keys
      → length a.keys.encryption_public ≡ 32
      → length nonce ≡ 12
      → encrypt P a.keys.encryption_private a.keys.encryption_public b.keys.encryption_public
          (some nonce)
          plaintext
        ≡ ok sealed
      → let wire = pb_from_tx (build_tx c a to sealed now).0 in
        (decrypt_incoming P b wire ≡ ok plaintext)
        × (decrypt_outgoing P a wire b.keys.encryption_public ≡ ok plaintext)
  unfolding build_tx pb_from_tx Transaction.sign decrypt_incoming decrypt_outgoing
  decrypt-build_tx a b to nonce plaintext sealed now ma mb size twelve e =
      let (theirs, own) =
        decrypt-encrypt P a.keys.encryption_private b.keys.encryption_private
          a.keys.encryption_public b.keys.encryption_public (some nonce) plaintext sealed
          ma.encryption mb.encryption e in
      let (same_pub, same_nonce) = encrypt-parts P _ _ _ nonce plaintext sealed e in
      let key_fits = fit_full 32 sealed.sender_x25519_pub (ground arith) in
      let nonce_fits = fit_full 12 sealed.nonce (ground arith) in
      (ground (arith, theirs, key_fits, nonce_fits), ground (arith, own, nonce_fits))
