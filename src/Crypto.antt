-- ===== src/Crypto.antt =====
-- The primitives of Go's crypto/sha256 and crypto/ed25519 that the program calls. They are a
-- parameter: a development over them holds for every hash and every signature scheme in which a
-- signature that was made with a key verifies under its public key.
use open_chat.Prelude.{◌≡◌, Bool, true, ◌++◌}
use open_chat.Go.Bytes.{Bytes, eq_bytes, eq_bytes_refl}

pub record Crypto : Type 0 where
  -- sha256.Sum256
  pub sha256 : Bytes → Bytes
  -- the public key of a private one
  pub public_key : Bytes → Bytes
  -- ed25519.Sign, ed25519.Verify
  pub sign : Bytes → Bytes → Bytes
  pub verify : Bytes → Bytes → Bytes → Bool
  pub verify-sign : (priv msg : Bytes) → verify (public_key priv) msg (sign priv msg) ≡ true

pub verify-sign_toy : (priv msg : Bytes) → eq_bytes (priv ++ msg) (priv ++ msg) ≡ true
verify-sign_toy priv msg = eq_bytes_refl (priv ++ msg)

-- A scheme that meets the law: a key is its own public key, and signs by standing in front.
abbrev pub toy : Crypto
toy = record {
  sha256 = λ m. m;
  public_key = λ k. k;
  sign = λ k m. k ++ m;
  verify = λ k m s. eq_bytes (k ++ m) s;
  verify-sign = verify-sign_toy;
}
