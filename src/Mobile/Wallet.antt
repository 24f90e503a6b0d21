-- ===== src/Mobile/Wallet.antt =====
-- mobile/wallet.go: what a native app does with a wallet. The entropy and the clock are arguments.
use open_chat.Prelude.{ℕ, Option, none, [], if◌then◌else◌, Result, ok, err}
use open_chat.Go.Bytes.{Bytes, eq_bytes}
use open_chat.Crypto.{Crypto}
use open_chat.Client.Primitives.{Primitives}
use open_chat.Client.Keys.{KeyError}
use open_chat.Client.Wallet.{Wallet, new_wallet}
use open_chat.Client.ContactCode.{CodeError, parse_contact_code}

pub data ImportError : Type 0 where
  empty_mnemonic : ImportError
  bad_mnemonic : KeyError → ImportError

module _ (c : Crypto) (P : Primitives) where
  unfoldable pub create_wallet : Option Bytes → ℕ → Result KeyError Wallet
  create_wallet entropy now = new_wallet c P [] [] entropy now

  unfoldable pub import_wallet : Bytes → ℕ → Result ImportError Wallet
  import_wallet mnemonic now =
      if eq_bytes mnemonic []
      then err empty_mnemonic
      else elim (new_wallet c P mnemonic [] none now) [
        | err why ↦ err (bad_mnemonic why)
        | ok w ↦ ok w
      ]

-- The address and the key of a pasted code.
unfoldable pub parse_code : Bytes → Result CodeError (Bytes × Bytes)
parse_code code = elim (parse_contact_code code) [
  | err why ↦ err why
  | ok contact ↦ ok (contact.address, contact.x25519_pub_hex)
]
