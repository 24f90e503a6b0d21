-- ===== src/Client/Primitives.antt =====
-- The calls of golang.org/x/crypto, crypto/aes, crypto/cipher and go-bip39 that pkg/crypto makes.
-- They are a parameter, with the two laws of their documentation that the client relies on.
use open_chat.Prelude.{ℕ, ◌≡◌, Option, some, Bool}
use open_chat.Go.Bytes.{Bytes}

pub record Primitives : Type 0 where
  -- curve25519.X25519, which fails where the result is all zero, and curve25519.Basepoint
  pub x25519 : Bytes → Bytes → Option Bytes
  pub basepoint : Bytes
  -- hkdf.New with SHA-256 or SHA-512, and io.ReadFull of so many bytes
  pub hkdf_sha256 : Bytes → Bytes → ℕ → Option Bytes
  pub hkdf_sha512 : Bytes → Bytes → ℕ → Option Bytes
  -- cipher.NewGCM over aes.NewCipher at a key: Seal and Open (`unseal`), with a nonce
  pub seal : Bytes → Bytes → Bytes → Bytes
  pub unseal : Bytes → Bytes → Bytes → Option Bytes
  -- ed25519.NewKeyFromSeed
  pub key_from_seed : Bytes → Bytes
  -- bip39.IsMnemonicValid, NewSeed, NewMnemonic
  pub is_mnemonic_valid : Bytes → Bool
  pub new_seed : Bytes → Bytes → Bytes
  pub new_mnemonic : Bytes → Option Bytes
  pub unseal-seal : (key nonce text : Bytes) → unseal key nonce (seal key nonce text) ≡ some text
  pub exchange :
      (a b : Bytes) {p q : Bytes}
      → x25519 a basepoint ≡ some p
      → x25519 b basepoint ≡ some q
      → x25519 a q ≡ x25519 b p
