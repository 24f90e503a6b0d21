-- ===== src/Commands.antt =====
-- cmd/client and cmd/keytool: the programs for the terminal. The flags are arguments, and so are what
-- is typed and what the random source gives; the result is what a command prints.
pub mod Keytool
use open_chat.Prelude.{
  ℕ, ◌≡◌, refl, ap, sym, ◌∙◌, Bool, true, false, not, ◌||◌, Option, none, some, List, [], ◌∷◌, ◌==◌,
  if◌then◌else◌, arith, length, Result, ok, err, ◌>>=◌,
}
use open_chat.Go.Bytes.{Bytes, IsBytes, eq_bytes, codes}
use open_chat.Go.Text.{trim_space, trim_space-printable, split}
use open_chat.Go.Hex
use open_chat.Crypto.{Crypto}
use open_chat.Client.Primitives.{Primitives}
use open_chat.Client.Keys.{KeyError, encryption_public_hex}
use open_chat.Client.Wallet
use open_chat.Client.Wallet.{Wallet, new_wallet, decode_recipient_x25519}
use open_chat.Client.Sending.{Attempts, SendError, Sent, send_message}
use open_chat.Network.{peer_id_from_seed}

pub data CommandError : Type 0 where
  missing_flags bad_recipient bad_seed no_randomness no_peer_id : CommandError
  bad_wallet : KeyError → CommandError
  unsent : SendError → CommandError

abbrev pub or_bad_wallet : Result KeyError Wallet → Result CommandError Wallet
or_bad_wallet (err why) = err (bad_wallet why)
or_bad_wallet (ok w) = ok w

-- The flag, or a line that is read from the terminal.
unfoldable pub require_mnemonic : Bytes → Bytes → Bytes
require_mnemonic mnemonic line = if eq_bytes mnemonic [] then trim_space line else mnemonic

-- The items are not trimmed, and empty ones stay.
unfoldable pub bootstrap_list : Bytes → List Bytes
bootstrap_list csv = if eq_bytes csv [] then [] else split 44 csv

-- The mnemonic, the address and the encryption key.
unfoldable pub keygen :
    Crypto → Primitives → Bytes → Option Bytes → ℕ → Result CommandError (Bytes × Bytes × Bytes)
keygen c P passphrase entropy now = do
  w ← or_bad_wallet (new_wallet c P [] passphrase entropy now)
  ok (w.keys.mnemonic, Wallet.address w, encryption_public_hex w.keys)

unfoldable pub show_address :
    Crypto
    → Primitives
    → Bytes
    → Bytes
    → Bytes
    → Option Bytes
    → ℕ
    → Result CommandError (Bytes × Bytes)
show_address c P mnemonic line passphrase entropy now = do
  w ← or_bad_wallet (new_wallet c P (require_mnemonic mnemonic line) passphrase entropy now)
  ok (Wallet.address w, encryption_public_hex w.keys)

abbrev pub or_unsent : Result SendError Bytes → Result CommandError Bytes
or_unsent (err why) = err (unsent why)
or_unsent (ok hash) = ok hash

unfoldable pub send_with :
    Crypto
    → Primitives
    → Attempts
    → Wallet
    → Bytes
    → Bytes
    → Option Bytes
    → Bytes
    → ℕ
    → Result CommandError Bytes
send_with c P net w to to_x25519 random text now = elim (decode_recipient_x25519 to_x25519) [
  | none ↦ err bad_recipient
  | some key ↦ or_unsent (send_message c P net w to key random text now).result
]

pub record SendFlags : Type 0 where
  pub mnemonic : Bytes
  pub passphrase : Bytes
  pub to : Bytes
  pub to_x25519 : Bytes
  pub text : Bytes

-- The program takes the time once when it makes the wallet, and once when it sends.
unfoldable pub send :
    Crypto
    → Primitives
    → Attempts
    → SendFlags
    → Bytes
    → Option Bytes
    → Option Bytes
    → ℕ
    → ℕ
    → Result CommandError Bytes
send c P net f line entropy random started now =
    if eq_bytes f.to [] || eq_bytes f.to_x25519 [] || eq_bytes f.text []
    then err missing_flags
    else do
      w ←
          or_bad_wallet
            (new_wallet c P (require_mnemonic f.mnemonic line) f.passphrase entropy started)
      send_with c P net w f.to f.to_x25519 random f.text now

-- The keytool: the seed, the address and the peer id.
unfoldable pub seed_of : Bytes → Option Bytes → Result CommandError Bytes
seed_of seed_hex random =
    if eq_bytes seed_hex []
    then elim random [ none ↦ err no_randomness | some seed ↦ ok seed ]
    else elim (Hex.decode seed_hex) [
      | none ↦ err bad_seed
      | some seed ↦ if not (length seed == 32) then err bad_seed else ok seed
    ]

abbrev pub printed :
    Crypto → Primitives → Bytes → Option Bytes → Result CommandError (Bytes × Bytes × Bytes)
printed c P seed none = err no_peer_id
printed c P seed (some id) =
    ok (Hex.encode seed, Hex.encode (c.public_key (P.key_from_seed seed)), id)

unfoldable pub keytool :
    Crypto
    → Primitives
    → (Bytes → Option Bytes)
    → (Bytes → Option Bytes)
    → Bytes
    → Option Bytes
    → Result CommandError (Bytes × Bytes × Bytes)
keytool c P unmarshal peer_id seed_hex random = do
  seed ← seed_of seed_hex random
  printed c P seed (peer_id_from_seed P unmarshal peer_id seed)
