-- ===== src/Client/Keys.antt =====
-- pkg/crypto/keys.go: the key pairs of a user, from a mnemonic. The entropy that `rand.Read` gives
-- is an argument, `none` where it fails.
use open_chat.Prelude.{
  ℕ, ◌+◌, ◌-◌, ◌%◌, ◌≡◌, Option, none, some, [], ◌∷◌, arith, if◌then◌else◌, Result, ok, err, ◌>>=◌,
  split_chain,
}
use open_chat.Go.Bytes.{Bytes, codes}
use open_chat.Go.Hex.{encode}
use open_chat.Crypto.{Crypto}
use open_chat.Client.Primitives.{Primitives}

pub data KeyError : Type 0 where
  no_entropy bad_entropy invalid_mnemonic hkdf_failed ecdh_failed : KeyError

pub record KeyPair : Type 0 where
  pub mnemonic : Bytes
  pub signing_public : Bytes
  pub signing_private : Bytes
  pub encryption_public : Bytes
  pub encryption_private : Bytes

abbrev pub hkdf_info_ed25519 : Bytes
hkdf_info_ed25519 = codes "openchat/ed25519-signing-key/v1"

abbrev pub hkdf_info_x25519 : Bytes
hkdf_info_x25519 = codes "openchat/x25519-encryption-key/v1"

unfoldable pub address : KeyPair → Bytes
address k = encode k.signing_public

unfoldable pub encryption_public_hex : KeyPair → Bytes
encryption_public_hex k = encode k.encryption_public

-- `&= 127` and `|= 64` on the last byte, `&= 248` on the first.
unfoldable pub clamp_last : Bytes → Bytes
clamp_last [] = []
clamp_last (x ∷ []) = (x % 64 + 64) ∷ []
clamp_last (x ∷ y ∷ rest) = x ∷ clamp_last (y ∷ rest)

unfoldable pub clamp : Bytes → Bytes
unfolding clamp_last
clamp [] = []
clamp (x ∷ xs) = (x - x % 8) ∷ clamp_last xs

abbrev pub or_error : {A : Type 0} → KeyError → Option A → Result KeyError A
or_error why none = err why
or_error why (some a) = ok a

module _ (c : Crypto) (P : Primitives) where
  unfoldable pub hkdf_expand : Bytes → Bytes → ℕ → Result KeyError Bytes
  hkdf_expand seed info size = or_error hkdf_failed (P.hkdf_sha512 seed info size)

  -- The private key and the public one.
  unfoldable pub derive_ed25519 : Bytes → Result KeyError (Bytes × Bytes)
  derive_ed25519 seed = do
    sub ← hkdf_expand seed hkdf_info_ed25519 32
    ok (P.key_from_seed sub, c.public_key (P.key_from_seed sub))

  unfoldable pub derive_x25519 : Bytes → Result KeyError (Bytes × Bytes)
  derive_x25519 seed = do
    sub ← hkdf_expand seed hkdf_info_x25519 32
    pub_key ← or_error ecdh_failed (P.x25519 (clamp sub) P.basepoint)
    ok (clamp sub, pub_key)

  -- From the seed of a valid mnemonic on.
  unfoldable pub keys_of_seed : Bytes → Bytes → Result KeyError KeyPair
  keys_of_seed mnemonic seed = do
    signing ← derive_ed25519 seed
    encryption ← derive_x25519 seed
    ok (record {
      mnemonic = mnemonic;
      signing_public = signing.1;
      signing_private = signing.0;
      encryption_public = encryption.1;
      encryption_private = encryption.0;
    })

  unfoldable pub derive_key_pair : Bytes → Bytes → Result KeyError KeyPair
  derive_key_pair mnemonic passphrase =
      if P.is_mnemonic_valid mnemonic
      then keys_of_seed mnemonic (P.new_seed mnemonic passphrase)
      else err invalid_mnemonic

  unfoldable pub generate_mnemonic : Option Bytes → Result KeyError Bytes
  generate_mnemonic entropy = do
    bits ← or_error no_entropy entropy
    or_error bad_entropy (P.new_mnemonic bits)

  unfoldable pub generate_key_pair : Option Bytes → Bytes → Result KeyError KeyPair
  generate_key_pair entropy passphrase = do
    mnemonic ← generate_mnemonic entropy
    derive_key_pair mnemonic passphrase

  -- The public keys belong to the private ones.
  pub record AreMatched (k : KeyPair) : Type 0 where
    pub signing : k.signing_public ≡ c.public_key k.signing_private
    pub encryption : P.x25519 k.encryption_private P.basepoint ≡ some k.encryption_public

  or_error-ok :
      {A : Type 0} (why : KeyError) (o : Option A) (a : A) → or_error why o ≡ ok a → o ≡ some a
  or_error-ok why none a e = cc
  or_error-ok why (some b) a e = cc

  derive_ed25519-ok :
      (seed : Bytes) (pair : Bytes × Bytes)
      → derive_ed25519 seed ≡ ok pair
      → pair.1 ≡ c.public_key pair.0
  unfolding derive_ed25519
  derive_ed25519-ok seed pair e =
      let (sub, made, expanded) = split_chain _ (hkdf_expand seed hkdf_info_ed25519 32) e in
      ground arith

  derive_x25519-ok :
      (seed : Bytes) (pair : Bytes × Bytes)
      → derive_x25519 seed ≡ ok pair
      → P.x25519 pair.0 P.basepoint ≡ some pair.1
  unfolding derive_x25519
  derive_x25519-ok seed pair e =
      let (sub, rest, expanded) = split_chain _ (hkdf_expand seed hkdf_info_x25519 32) e in
      let (pub_key, made, exchanged) =
        split_chain _ (or_error ecdh_failed (P.x25519 (clamp sub) P.basepoint)) rest in
      let known = or_error-ok ecdh_failed (P.x25519 (clamp sub) P.basepoint) pub_key exchanged in
      ground arith

  keys_of_seed-AreMatched :
      (mnemonic seed : Bytes) (k : KeyPair) → keys_of_seed mnemonic seed ≡ ok k → AreMatched k
  unfolding keys_of_seed
  keys_of_seed-AreMatched mnemonic seed k e =
      let (signing, rest, made) = split_chain _ (derive_ed25519 seed) e in
      let (encryption, last, exchanged) = split_chain _ (derive_x25519 seed) rest in
      let signs = derive_ed25519-ok seed signing made in
      let seals = derive_x25519-ok seed encryption exchanged in
      record { signing = ground arith; encryption = ground arith }

  -- The keys that a mnemonic gives belong together, whichever mnemonic and passphrase.
  pub derive_key_pair-AreMatched :
      (mnemonic passphrase : Bytes) (k : KeyPair)
      → derive_key_pair mnemonic passphrase ≡ ok k
      → AreMatched k
  unfolding derive_key_pair
  derive_key_pair-AreMatched mnemonic passphrase k e =
      keys_of_seed-AreMatched mnemonic (P.new_seed mnemonic passphrase) k (ground arith)
