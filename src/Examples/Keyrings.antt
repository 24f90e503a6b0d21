-- ===== src/Examples/Keyrings.antt =====
-- The data of the examples about clients: primitives that meet their laws, two users, and what one
-- writes to the other.
use open_chat.Prelude.{ℕ, ◌+◌, zero, suc, ◌<◌, ◌≡◌, refl, ap₂, some, [], ◌∷◌, ◌++◌, arith, true, ok}
use open_chat.Go.Bytes.{Bytes, IsBytes, codes}
use open_chat.Go.Text.{strip_prefix}
use open_chat.Crypto.{toy}
use open_chat.Client.Primitives.{Primitives}
use open_chat.Client.Keys.{KeyPair, AreMatched}
use open_chat.Client.Sealing.{Sealed, encrypt, aead_from_ecdh}
use open_chat.Client.Wallet.{Wallet}
use open_chat.Examples.Toys.{copies}

-- Keys are added byte by byte; the basepoint is empty.
abbrev pub sum : Bytes → Bytes → Bytes
sum [] ys = ys
sum (x ∷ xs) [] = x ∷ xs
sum (x ∷ xs) (y ∷ ys) = (x + y) ∷ sum xs ys

sum_comm : (xs ys : Bytes) → sum xs ys ≡ sum ys xs
sum_comm [] [] = refl
sum_comm [] (y ∷ ys) = refl
sum_comm (x ∷ xs) [] = refl
sum_comm (x ∷ xs) (y ∷ ys) = ap₂ (λ (h : ℕ) (t : Bytes). h ∷ t) (omega arith) (sum_comm xs ys)

sum_nil : (xs : Bytes) → sum xs [] ≡ xs
sum_nil [] = refl
sum_nil (x ∷ xs) = refl

pub strip_prefix-append : (p s : Bytes) → strip_prefix p (p ++ s) ≡ some s
unfolding strip_prefix
strip_prefix-append [] s = refl
strip_prefix-append (x ∷ p) s = ground (arith, strip_prefix-append p s)

pub exchange :
    (a b : Bytes) {p q : Bytes}
    → some (sum a []) ≡ some p
    → some (sum b []) ≡ some q
    → some (sum a q) ≡ some (sum b p)
exchange a b e f = ground (arith, sum_nil a, sum_nil b, sum_comm a b)

abbrev pub sums : Primitives
sums = record {
  x25519 = λ a b. some (sum a b);
  basepoint = [];
  hkdf_sha256 = λ secret info n. some secret;
  hkdf_sha512 = λ secret info n. some (copies n 65);
  seal = λ key nonce text. key ++ text;
  unseal = λ key nonce text. strip_prefix key text;
  key_from_seed = λ seed. seed;
  is_mnemonic_valid = λ m. true;
  new_seed = λ m passphrase. m ++ passphrase;
  new_mnemonic = λ entropy. some entropy;
  unseal-seal = λ key nonce text. strip_prefix-append key text;
  exchange = exchange;
}

abbrev pub key_pair : Bytes → Bytes → KeyPair
key_pair signing encryption = record {
  mnemonic = codes "words";
  signing_public = signing;
  signing_private = signing;
  encryption_public = encryption;
  encryption_private = encryption;
}

abbrev pub anna : Wallet
anna = record { keys = key_pair (copies 32 1) (copies 32 3); nonce_counter = 7 }

abbrev pub ben : Wallet
ben = record { keys = key_pair (copies 32 2) (copies 32 4); nonce_counter = 9 }

pub anna-AreMatched : AreMatched toy sums anna.keys
anna-AreMatched = record { signing = refl; encryption = refl }

pub ben-AreMatched : AreMatched toy sums ben.keys
ben-AreMatched = record { signing = refl; encryption = refl }

-- What anna seals for ben.
abbrev pub sealed : Sealed
sealed = record {
  ciphertext = copies 32 7 ++ codes "hi";
  nonce = copies 12 0;
  sender_x25519_pub = copies 32 3;
}

pub sealed_lem :
    encrypt sums anna.keys.encryption_private anna.keys.encryption_public ben.keys.encryption_public
      (some (copies 12 0))
      (codes "hi")
    ≡ ok sealed
unfolding encrypt aead_from_ecdh
sealed_lem = refl

pub copies-IsBytes : (n x : ℕ) → x < 256 → IsBytes (copies n x)
copies-IsBytes zero x h = tt
copies-IsBytes (suc n) x h = (h, copies-IsBytes n x h)
