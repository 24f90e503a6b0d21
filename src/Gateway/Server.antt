-- ===== src/Gateway/Server.antt =====
-- internal/grpcserver/server.go: the handlers of the gateway. The clock is an argument, and so is
-- the last nonce of the ledger.
pub mod Relays
pub mod Serving
use open_chat.Prelude.{
  ℕ, zero, suc, ◌+◌, ◌*◌, ◌%◌, ◌≡◌, Bool, true, false, not, Option, none, some, List, [], ◌∷◌, leb,
  ltb, ◌==◌, if◌then◌else◌, length, Result, ok, err, ◌>>=◌,
}
use open_chat.Go.Bytes.{Bytes, codes, eq_bytes}
use open_chat.Go.Hex.{decode}
use open_chat.Go.Int64.{is_stale, word}
use open_chat.Go.Map.{contains}
use open_chat.Crypto.{Crypto}
use open_chat.Blockchain.Transaction
use open_chat.Blockchain.Transaction.{Transaction, TxError, as_public_key}
use open_chat.Blockchain.Chain.{Chain, CommitEvent}
use open_chat.Blockchain.Chain.Store.{BlockStore, StoreError}
use open_chat.Mempool.{Mempool, RateLimiter, NonceSource, PoolError, add}
use open_chat.Gateway.Registry.{Registry, GatewayInfo, upsert, list, relay_role}
use open_chat.Gateway.Wire.{SmsRequest, BlockPb, WireError, tx_from_pb, pb_from_tx, block_to_pb}
use open_chat.Gateway.Proofs.{auth_bytes, relay_bytes}

-- `5 * time.Minute`, in nanoseconds.
abbrev pub stream_auth_freshness : ℕ
stream_auth_freshness = 300000 * 1000000

abbrev pub register_relay_freshness : ℕ
register_relay_freshness = 300000 * 1000000

abbrev pub max_get_blocks_batch : ℕ
max_get_blocks_batch = 500

abbrev pub validator_role : Bytes
validator_role = codes "validator"

pub record Settings : Type 0 where
  pub role : Bytes
  pub node_version : Bytes
  pub validator_set : List Bytes
  pub allowed_versions : List Bytes

pub record StreamRequest : Type 0 where
  pub address : Bytes
  pub timestamp : ℕ
  pub signature : Bytes

pub record RegisterRelayRequest : Type 0 where
  pub relay_address : Bytes
  pub relay_grpc_address : Bytes
  pub node_version : Bytes
  pub node_commit : Bytes
  pub timestamp : ℕ
  pub signature : Bytes

pub data AuthError : Type 0 where
  stale_timestamp invalid_address wrong_signature : AuthError

pub data Reason : Type 0 where
  not_a_validator no_endpoint stale_registration : Reason
  invalid_relay_address wrong_relay_signature is_a_validator version_refused : Reason

pub data SendError : Type 0 where
  malformed : WireError → SendError
  refused : PoolError → SendError

pub record Delivery : Type 0 where
  pub tx_hash : Bytes
  pub message : SmsRequest
  pub block_height : ℕ

-- An empty list allows the node's own version.
unfoldable pub version_allowed : Settings → Bytes → Bool
version_allowed s version =
    if length s.allowed_versions == 0
    then eq_bytes version s.node_version
    else contains s.allowed_versions version

abbrev pub relay_info : RegisterRelayRequest → GatewayInfo
relay_info req = record {
  grpc_address = req.relay_grpc_address;
  validator_address = req.relay_address;
  role = relay_role;
  node_version = req.node_version;
  healthy = true;
  last_seen_unix = 0;
  last_probe_unix = 0;
}

module _ (c : Crypto) where
  unfoldable pub verify_stream_auth : StreamRequest → ℕ → Result AuthError (Unit {0})
  verify_stream_auth req now =
      if is_stale now req.timestamp stream_auth_freshness
      then err stale_timestamp
      else elim (as_public_key (decode req.address)) [
        | err e ↦ err invalid_address
        | ok pub_key ↦
            if c.verify pub_key (auth_bytes req.address req.timestamp) req.signature
            then ok tt
            else err wrong_signature
      ]

  -- From the decoded key on: the signature, then the two lists.
  unfoldable pub check_relay : Settings → RegisterRelayRequest → Bytes → Result Reason (Unit {0})
  check_relay s req pub_key =
      if not (
        c.verify pub_key
          (relay_bytes req.relay_address req.relay_grpc_address req.node_version req.node_commit
            req.timestamp)
          req.signature)
      then err wrong_relay_signature
      else if contains s.validator_set req.relay_address
      then err is_a_validator
      else if not (version_allowed s req.node_version)
      then err version_refused
      else ok tt

  unfoldable pub judge_relay : Settings → RegisterRelayRequest → ℕ → Result Reason (Unit {0})
  judge_relay s req now =
      if not (eq_bytes s.role validator_role)
      then err not_a_validator
      else if eq_bytes req.relay_grpc_address []
      then err no_endpoint
      else if is_stale now req.timestamp register_relay_freshness
      then err stale_registration
      else elim (as_public_key (decode req.relay_address)) [
        | err e ↦ err invalid_relay_address
        | ok pub_key ↦ check_relay s req pub_key
      ]

  -- `now` is in milliseconds, `now_unix` in seconds. A failing announcement is only logged.
  unfoldable pub register_relay :
      Settings → Registry → RegisterRelayRequest → ℕ → ℕ → Result Reason (Unit {0}) × Registry
  register_relay s r req now now_unix = elim (judge_relay s req now) [
    | err e ↦ (err e, r)
    | ok _ ↦ (ok tt, upsert r (some (relay_info req)) now_unix)
  ]

  -- What a subscriber is sent for one event.
  unfoldable pub deliver : Bytes → ℕ → List Transaction → List Delivery
  deliver address height [] = []
  deliver address height (tx ∷ txs) =
      let rest = deliver address height txs in
      if eq_bytes tx.to address
      then record {
        tx_hash = Transaction.hash c tx;
        message = pb_from_tx tx;
        block_height = height;
      }
        ∷ rest
      else rest

  unfoldable pub stream_event : StreamRequest → CommitEvent → List Delivery
  stream_event req ev = deliver req.address ev.height ev.txs

  -- The hash for the client; a failing `Gossip` is only logged.
  unfoldable pub send_sms :
      (R : RateLimiter)
      → Mempool c R
      → NonceSource
      → ℕ
      → SmsRequest
      → Result SendError Bytes × Mempool c R
  send_sms R m nonces now req = elim (tx_from_pb req) [
    | err e ↦ (err (malformed e), m)
    | ok tx ↦
        let (answer, m') = add c R m nonces now tx in
        elim answer [ err e ↦ (err (refused e), m') | ok _ ↦ (ok (Transaction.hash c tx), m') ]
  ]

unfoldable pub get_nodes_discovery : Registry → ℕ → List GatewayInfo
get_nodes_discovery r max_results = list r max_results

unfoldable pub batch_limit : ℕ → ℕ
batch_limit max_blocks =
    if max_blocks == 0
    then max_get_blocks_batch
    else if ltb max_get_blocks_batch max_blocks
    then max_get_blocks_batch
    else max_blocks

module _ (S : BlockStore) where
  open S use {State, get_block}

  -- The loop from height `h` on, while there is room for so many blocks.
  unfoldable pub collect_blocks : State → ℕ → ℕ → Result StoreError (List BlockPb)
  collect_blocks s zero h = ok []
  collect_blocks s (suc room) h = elim (get_block s h) [
    | err e ↦ err e
    | ok none ↦ ok []
    | ok (some b) ↦ do rest ← collect_blocks s room ((h + 1) % word); ok (block_to_pb b ∷ rest)
  ]

  -- The blocks of the answer; the height that stands beside them is `Chain.height`.
  unfoldable pub get_blocks : State → ℕ → ℕ → Result StoreError (List BlockPb)
  get_blocks s from_height max_blocks = collect_blocks s (batch_limit max_blocks) from_height
