-- ===== src/Blockchain/Transaction.antt =====
-- internal/blockchain/transaction.go: the signed message, its canonical bytes, and its checks. A
-- string is its bytes, and an `int64` its 64-bit pattern.
pub mod SigningBytes
use open_chat.Prelude.{
  ℕ, ◌≡◌, ◌<◌, Option, none, some, ◌++◌, ◌==◌, if◌then◌else◌, length, Result, ok, err,
}
use open_chat.Go.Bytes.{Bytes}
use open_chat.Go.BigEndian.{put_u64}
use open_chat.Go.Hex.{decode, encode}
use open_chat.Go.Int64.{IsWord}
use open_chat.Crypto.{Crypto}

pub record Transaction : Type 0 where
  pub from : Bytes
  pub to : Bytes
  pub ciphertext : Bytes
  pub nonce_aead : Bytes
  pub ephemeral_pubkey : Bytes
  pub nonce : ℕ
  pub timestamp : ℕ
  pub signature : Bytes

-- What the Go types say of the fields: `[12]byte`, `[32]byte`, `uint64` and `int64`.
pub record IsTyped (t : Transaction) : Type 0 where
  pub nonce_aead_len : length t.nonce_aead ≡ 12
  pub ephemeral_len : length t.ephemeral_pubkey ≡ 32
  pub nonce_word : IsWord t.nonce
  pub timestamp_word : IsWord t.timestamp

pub data TxError : Type 0 where
  invalid_address invalid_signature : TxError

-- Go joins the parts one after another, with no length and no separator.
unfoldable pub signing_bytes : Transaction → Bytes
signing_bytes t =
    t.from
    ++ (t.to
        ++ (t.ciphertext
            ++ (t.nonce_aead ++ (t.ephemeral_pubkey ++ (put_u64 t.nonce ++ put_u64 t.timestamp)))))

-- The key of a decoded address, if it has the size of one.
abbrev pub as_public_key : Option Bytes → Result TxError Bytes
as_public_key none = err invalid_address
as_public_key (some b) = if length b == 32 then ok b else err invalid_address

unfoldable pub decode_address : Bytes → Result TxError Bytes
decode_address addr = as_public_key (decode addr)

module _ (c : Crypto) where
  unfoldable pub sign : Transaction → Bytes → Transaction
  sign t priv = record t { signature = c.sign priv (signing_bytes t) }

  unfoldable pub verify : Transaction → Result TxError (Unit {0})
  verify t = elim (decode_address t.from) [
    | err e ↦ err e
    | ok pub_key ↦
        if c.verify pub_key (signing_bytes t) t.signature then ok tt else err invalid_signature
  ]

  unfoldable pub hash : Transaction → Bytes
  hash t = encode (c.sha256 (signing_bytes t ++ t.signature))
