-- ===== src/Client/History.antt =====
-- pkg/client/client.go, FetchHistory: what a wallet recovers from the committed blocks. The gateways'
-- answers, the failovers and the context are arguments, one per turn of the loop.
pub mod Scanning
pub mod Catching
pub mod Stored
use open_chat.Prelude.{
  ℕ, zero, suc, ◌+◌, ◌%◌, Bool, true, false, Option, none, some, List, [], ◌∷◌, ◌++◌, length, ◌==◌,
  ◌||◌, if◌then◌else◌, Result, ok, err, arith,
}
use open_chat.Go.Bytes.{Bytes, eq_bytes, fit}
use open_chat.Go.Map.{Map, lookup, insert}
use open_chat.Go.Hex
use open_chat.Go.Int64.{word}
use open_chat.Crypto.{Crypto}
use open_chat.Gateway.Wire.{SmsRequest, BlockPb}
use open_chat.Client.Primitives.{Primitives}
use open_chat.Client.Wallet
use open_chat.Client.Wallet.{Wallet}
use open_chat.Client.Envelope.{tx_hash_from_pb, decrypt_incoming, decrypt_outgoing}

pub record HistoryEvent : Type 0 where
  pub height : ℕ
  pub tx_hash : Bytes
  pub timestamp : ℕ
  pub incoming : Bool
  pub peer_address : Bytes
  pub peer_x25519_pub_hex : Bytes
  pub plaintext : Bytes

-- An error of a call: the code of a gRPC status, or none of those.
pub data RpcError : Type 0 where
  status : ℕ → RpcError
  other_error : RpcError

-- DeadlineExceeded, Aborted, Internal and Unavailable.
unfoldable pub is_transport_code : ℕ → Bool
is_transport_code code = code == 14 || code == 4 || code == 10 || code == 13

unfoldable pub is_transport_error : {A : Type 0} → Result RpcError A → Bool
is_transport_error (ok _) = false
is_transport_error (err other_error) = true
is_transport_error (err (status code)) = is_transport_code code

-- The encryption keys that are known, by address; the caller may give no map at all.
abbrev pub Known : Type 0
Known = Option (Map Bytes)

abbrev pub known_key : Known → Bytes → Option Bytes
known_key none address = none
known_key (some m) address = lookup m address

abbrev pub learn : Known → Bytes → Bytes → Known
learn none address key = none
learn (some m) address key = some (insert m address key)

abbrev pub event_of : Bytes → ℕ → SmsRequest → Bool → Bytes → Bytes → Bytes → HistoryEvent
event_of tx_hash height tx incoming peer key plain = record {
  height = height;
  tx_hash = tx_hash;
  timestamp = tx.timestamp;
  incoming = incoming;
  peer_address = peer;
  peer_x25519_pub_hex = Hex.encode key;
  plaintext = plain;
}

-- What a scan has found, and what it has learned.
pub record Scan : Type 0 where
  pub known : Known
  pub events : List HistoryEvent

module _ (c : Crypto) (P : Primitives) (w : Wallet) where
  unfoldable pub scan_incoming : ℕ → SmsRequest → Known → Scan
  scan_incoming height tx known = elim (decrypt_incoming P w tx) [
    | err _ ↦ record { known = known; events = [] }
    | ok plain ↦
        let sender_pub = fit 32 tx.ephemeral_pubkey in
        record {
          known = learn known tx.from_address sender_pub;
          events =
              event_of (tx_hash_from_pb c tx) height tx true tx.from_address sender_pub plain ∷ [];
        }
  ]

  unfoldable pub scan_outgoing : ℕ → SmsRequest → Known → Scan
  scan_outgoing height tx known = elim (known_key known tx.to_address) [
    | none ↦ record { known = known; events = [] }
    | some pub_key ↦ elim (decrypt_outgoing P w tx pub_key) [
      | err _ ↦ record { known = known; events = [] }
      | ok plain ↦ record {
        known = known;
        events = event_of (tx_hash_from_pb c tx) height tx false tx.to_address pub_key plain ∷ [];
      }
    ]
  ]

  unfoldable pub scan_tx : ℕ → SmsRequest → Known → Scan
  scan_tx height tx known =
      if eq_bytes tx.to_address (Wallet.address w)
      then scan_incoming height tx known
      else if eq_bytes tx.from_address (Wallet.address w)
      then scan_outgoing height tx known
      else record { known = known; events = [] }

  unfoldable pub scan_txs : ℕ → List SmsRequest → Known → Scan
  scan_txs height [] known = record { known = known; events = [] }
  scan_txs height (tx ∷ txs) known =
      let first = scan_tx height tx known in
      let rest = scan_txs height txs first.known in
      record { known = rest.known; events = first.events ++ rest.events }

  -- The height to resume from, and the scan.
  unfoldable pub scan_blocks : List BlockPb → ℕ → Known → ℕ × Scan
  scan_blocks [] height known = (height, record { known = known; events = [] })
  scan_blocks (b ∷ bs) height known =
      let first = scan_txs b.height b.transactions known in
      let (next, rest) = scan_blocks bs ((b.height + 1) % word) first.known in
      (next, record { known = rest.known; events = first.events ++ rest.events })

-- How a scan ends.
pub data Stop : Type 0 where
  caught_up ended no_gateway scanning : Stop
  rpc_failed : RpcError → Stop

-- What is not under the client's control, by the turn of the loop and the height asked for.
pub record Gateways : Type 0 where
  pub is_over : ℕ → Bool
  pub answer : ℕ → ℕ → Result RpcError (List BlockPb)
  pub fails_over : ℕ → Bool
  pub retry : ℕ → ℕ → Result RpcError (List BlockPb)

pub record Fetched : Type 0 where
  pub stop : Stop
  pub height : ℕ
  pub scan : Scan

abbrev pub stopped : Stop → ℕ → Known → Fetched
stopped why height known = record {
  stop = why;
  height = height;
  scan = record { known = known; events = [] };
}

abbrev pub after : List HistoryEvent → Fetched → Fetched
after events rest = record rest {
  scan = record { known = rest.scan.known; events = events ++ rest.scan.events };
}

-- A call with one failover behind it; `none` where no gateway is left.
unfoldable pub call_get_blocks : Gateways → ℕ → ℕ → Option (Result RpcError (List BlockPb))
call_get_blocks g turn height =
    if is_transport_error (g.answer turn height)
    then if g.fails_over turn then some (g.retry turn height) else none
    else some (g.answer turn height)

module _ (c : Crypto) (P : Primitives) (w : Wallet) where
  unfoldable pub fetch_history : Gateways → ℕ → ℕ → ℕ → Known → Fetched
  fetch_history g zero turn height known = stopped scanning height known
  fetch_history g (suc fuel) turn height known =
      if g.is_over turn then stopped ended height known else elim (call_get_blocks g turn height) [
        | none ↦ stopped no_gateway height known
        | some (err why) ↦ stopped (rpc_failed why) height known
        | some (ok []) ↦ stopped caught_up height known
        | some (ok (b ∷ bs)) ↦
            let (next, scan) = scan_blocks c P w (b ∷ bs) height known in
            after scan.events (fetch_history g fuel (suc turn) next scan.known)
      ]
