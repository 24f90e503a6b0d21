-- ===== src/App/Service.antt =====
-- internal/app/service.go: the wallet, the network and the store of the app together. The callbacks
-- of the user interface are the list of addresses that they are called with.
pub mod Replay
pub mod Recovery
use open_chat.Prelude.{
  ℕ, ◌≡◌, Bool, true, false, Option, none, some, List, [], ◌∷◌, if◌then◌else◌, Result, ok, err,
  ◌>>=◌,
}
use open_chat.Go.Bytes.{Bytes, eq_bytes}
use open_chat.Go.Map.{Map, insert}
use open_chat.Crypto.{Crypto}
use open_chat.Client.Primitives.{Primitives}
use open_chat.Client.Wallet.{Wallet, decode_recipient_x25519}
use open_chat.Client.History.{
  HistoryEvent, Stop, caught_up, ended, no_gateway, scanning, rpc_failed, Gateways, fetch_history,
}
use open_chat.Client.Sending.{Attempts, SendError, send_message}
use open_chat.App.Device.{File, Json, DiskError}
use open_chat.App.Chats.{Chats, Contact, StoredMessage, Direction, outgoing, incoming, contacts}
use open_chat.App.Chats.Saving.{
  ChatStore, append_message, append_history_message, set_last_synced_height,
}

-- The keys of the contacts whose saved key can be read.
unfoldable pub known_keys : List Contact → Map Bytes → Map Bytes
known_keys [] known = known
known_keys (c ∷ cs) known =
    if eq_bytes c.x25519_pub_hex []
    then known_keys cs known
    else elim (decode_recipient_x25519 c.x25519_pub_hex) [
      | none ↦ known_keys cs known
      | some pub_key ↦ known_keys cs (insert known c.address pub_key)
    ]

abbrev pub direction_of : HistoryEvent → Direction
direction_of ev = if ev.incoming then incoming else outgoing

abbrev pub stored_event : HistoryEvent → StoredMessage
stored_event ev = record {
  direction = direction_of ev;
  text = ev.plaintext;
  tx_hash = ev.tx_hash;
  timestamp = ev.timestamp;
}

abbrev pub sent_text : Bytes → Bytes → ℕ → StoredMessage
sent_text text tx_hash now = record {
  direction = outgoing;
  text = text;
  tx_hash = tx_hash;
  timestamp = now;
}

pub data SyncError : Type 0 where
  -- how the scan ended, where it did not catch up
  fetch_failed : Stop → SyncError
  save_failed : DiskError → SyncError

pub data TextError : Type 0 where
  no_key bad_key : TextError
  unsent : SendError → TextError
  unsaved : DiskError → TextError

abbrev pub or_unsaved : Result DiskError (Unit {0}) → Result TextError (Unit {0})
or_unsaved (err why) = err (unsaved why)
or_unsaved (ok done) = ok done

abbrev pub or_save_failed : Result DiskError (Unit {0}) → Result SyncError (Unit {0})
or_save_failed (err why) = err (save_failed why)
or_save_failed (ok done) = ok done

module _ (F : File) (J : Json Chats) where
  -- A pass over the events: the last error of a write, the store, and what `OnMessage` was told,
  -- the latest first.
  pub record Pass : Type 0 where
    pub append_error : Option DiskError
    pub store : ChatStore F J
    pub notified : List Bytes

  abbrev pub noted : HistoryEvent → Pass → Bool × Result DiskError (Unit {0}) × ChatStore F J → Pass
  noted ev p (added, err why, store') = record {
    append_error = some why;
    store = store';
    notified = p.notified;
  }
  noted ev p (added, ok _, store') = record {
    append_error = p.append_error;
    store = store';
    notified = if added then ev.peer_address ∷ p.notified else p.notified;
  }

  unfoldable pub save_event : HistoryEvent → Pass → Pass
  save_event ev p =
      noted ev p (
        append_history_message F J p.store ev.peer_address (stored_event ev) ev.peer_x25519_pub_hex)

  unfoldable pub save_events : List HistoryEvent → Pass → Pass
  save_events [] p = p
  save_events (ev ∷ evs) p = save_events evs (save_event ev p)

  abbrev pub starting : ChatStore F J → Pass
  starting s = record { append_error = none; store = s; notified = [] }

  unfoldable pub finish_sync :
      Stop → ℕ → Pass → Result SyncError (Unit {0}) × ChatStore F J × List Bytes
  finish_sync caught_up next p = elim p.append_error [
    | some why ↦ (err (save_failed why), p.store, p.notified)
    | none ↦
        let (answer, store') = set_last_synced_height F J p.store next in
        (or_save_failed answer, store', p.notified)
  ]
  finish_sync stop next p = (err (fetch_failed stop), p.store, p.notified)

  module _ (c : Crypto) (P : Primitives) where
    unfoldable pub sync_history :
        ((Contact → Contact → Bool) → List Contact → List Contact)
        → Gateways
        → ℕ
        → Wallet
        → ChatStore F J
        → Result SyncError (Unit {0}) × ChatStore F J × List Bytes
    sync_history sort g fuel w s =
        let known = known_keys (contacts sort s.chats) [] in
        let fetched = fetch_history c P w g fuel 0 s.chats.synced_height (some known) in
        finish_sync fetched.stop fetched.height (save_events fetched.scan.events (starting s))

    -- The result, the store, and the wallet with its nonce spent. The clock is read twice.
    unfoldable pub send_text :
        Attempts
        → Option Bytes
        → ℕ
        → ℕ
        → Wallet
        → ChatStore F J
        → Contact
        → Bytes
        → Result TextError (Unit {0}) × ChatStore F J × Wallet
    send_text net random now later w s to text =
        if eq_bytes to.x25519_pub_hex []
        then (err no_key, s, w)
        else elim (decode_recipient_x25519 to.x25519_pub_hex) [
          | none ↦ (err bad_key, s, w)
          | some key ↦
              let sent = send_message c P net w to.address key random text now in
              elim sent.result [
                | err why ↦ (err (unsent why), s, sent.wallet)
                | ok tx_hash ↦
                    let (answer, s') =
                      append_message F J s to.address (sent_text text tx_hash later) [] in
                    (or_unsaved answer, s', sent.wallet)
              ]
        ]
