-- ===== src/Client/Wallet.antt =====
-- pkg/client/wallet.go: a user's keys and the counter of its nonces. The clock is an argument, in
-- nanoseconds.
use open_chat.Prelude.{
  ℕ, ◌+◌, ◌%◌, ◌<◌, suc, zero, Option, none, some, [], ◌∷◌, List, arith, length, ◌==◌,
  if◌then◌else◌, Result, ok, ◌>>=◌,
}
use open_chat.Go.Bytes.{Bytes, eq_bytes}
use open_chat.Go.Hex.{decode}
use open_chat.Go.Int64.{word}
use open_chat.Crypto.{Crypto}
use open_chat.Client.Primitives.{Primitives}
use open_chat.Client.Keys
use open_chat.Client.Keys.{KeyPair, KeyError, generate_key_pair, derive_key_pair}

pub record Wallet : Type 0 where
  pub keys : KeyPair
  pub nonce_counter : ℕ

unfoldable pub address : Wallet → Bytes
address w = Keys.address w.keys

-- The nonce and the wallet that has used it.
unfoldable pub next_nonce : Wallet → ℕ × Wallet
next_nonce w = let next = (w.nonce_counter + 1) % word in (next, record w { nonce_counter = next })

unfoldable pub decode_recipient_x25519 : Bytes → Option Bytes
decode_recipient_x25519 hex_pub = elim (decode hex_pub) [
  | none ↦ none
  | some b ↦ if length b == 32 then some b else none
]

module _ (c : Crypto) (P : Primitives) where
  unfoldable pub new_wallet : Bytes → Bytes → Option Bytes → ℕ → Result KeyError Wallet
  new_wallet mnemonic passphrase entropy now = do
    keys ←
        if eq_bytes mnemonic []
        then generate_key_pair c P entropy passphrase
        else derive_key_pair c P mnemonic passphrase
    ok (record { keys = keys; nonce_counter = now % word })

-- The nonces of so many sends in a row.
abbrev pub nonces : ℕ → Wallet → List ℕ
nonces zero w = []
nonces (suc k) w = let (n, w') = next_nonce w in n ∷ nonces k w'

abbrev pub IsIncreasing : ℕ → List ℕ → Type 0
IsIncreasing floor [] = Unit {0}
IsIncreasing floor (n ∷ ns) = (floor < n) × IsIncreasing n ns

-- The nonces of a wallet grow strictly, as long as the counter does not wrap.
pub nonces-IsIncreasing :
    (k : ℕ) (w : Wallet) → w.nonce_counter + k < word → IsIncreasing w.nonce_counter (nonces k w)
unfolding next_nonce
nonces-IsIncreasing zero w h = tt
nonces-IsIncreasing (suc k) w h =
    let rest = nonces-IsIncreasing k (next_nonce w).1 (omega arith) in (omega arith, rest)
