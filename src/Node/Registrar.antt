-- ===== src/Node/Registrar.antt =====
-- cmd/node/relay.go: how a relay registers with a validator, and how a validator probes a relay. The
-- clocks and the answers of the other side are arguments.
pub mod Accepted
use open_chat.Prelude.{
  ℕ, zero, ◌/◌, ◌*◌, ◌≤◌, ◌<◌, ◌≡◌, ◌≢◌, refl, ap, ◌∙◌, sym, Bool, true, false, not, ◌||◌, Option,
  none, some, List, [], ◌∷◌, replicate, ◌==◌, if◌then◌else◌, arith, length, Result, ok, err,
  Bool-cases, inl, inr,
}
use open_chat.Go.Bytes.{Bytes, IsBytes, eq_bytes, eq_bytes_iff, eq_bytes_refl, eq_bytes_ne, codes}
use open_chat.Go.Hex
use open_chat.Go.Hex.{decode-encode}
use open_chat.Go.Int64.{is_stale, word}
use open_chat.Go.Map.{contains}
use open_chat.Crypto.{Crypto}
use open_chat.Blockchain.Transaction
use open_chat.Blockchain.Transaction.{Transaction, IsTyped, as_public_key}
use open_chat.Blockchain.Transaction.SigningBytes
use open_chat.Gateway.Registry.{GatewayInfo, Registry, upsert}
use open_chat.Gateway.Wire.{SmsRequest, tx_from_pb}
use open_chat.Gateway.Proofs.{relay_bytes}
use open_chat.Gateway.Server.{
  Settings, RegisterRelayRequest, Delivery, validator_role, register_relay_freshness,
  version_allowed, relay_info, judge_relay, check_relay, register_relay, deliver,
}
use open_chat.Node.Config.{NodeConfig, ℤ, pos, negsuc, second}

-- Half the lifetime of a registration, and five minutes where that is not positive.
unfoldable pub register_interval : ℤ → ℕ
register_interval (pos ttl) = let half = ttl / 2 in if half == 0 then 300 * second else half
register_interval (negsuc _) = 300 * second

pub data RegisterError : Type 0 where
  no_dial no_answer : RegisterError
  refused : Bytes → RegisterError

abbrev pub probe_filler : Bytes
probe_filler = codes "openchat-relay-health-probe"

abbrev pub heartbeat_info : NodeConfig → GatewayInfo
heartbeat_info cfg = record {
  grpc_address = cfg.external_grpc_addr;
  validator_address = cfg.validator_addr;
  role = validator_role;
  node_version = cfg.node_version;
  healthy = true;
  last_seen_unix = 0;
  last_probe_unix = 0;
}

-- One turn of the heartbeat, apart from the announcement.
unfoldable pub heartbeat : NodeConfig → Registry → ℕ → Registry
heartbeat cfg r now_unix = upsert r (some (heartbeat_info cfg)) now_unix

module _ (c : Crypto) where
  unfoldable pub registration_request : NodeConfig → ℕ → RegisterRelayRequest
  registration_request cfg now = record {
    relay_address = cfg.validator_addr;
    relay_grpc_address = cfg.external_grpc_addr;
    node_version = cfg.node_version;
    node_commit = cfg.node_commit;
    timestamp = now;
    signature = c.sign cfg.validator_priv (
        relay_bytes cfg.validator_addr cfg.external_grpc_addr cfg.node_version cfg.node_commit now);
  }

  -- `answer` is what the validator returns: whether it accepts, and its reason.
  unfoldable pub register_with :
      Bool
      → (RegisterRelayRequest → Option (Bool × Bytes))
      → NodeConfig
      → ℕ
      → Result RegisterError (Unit {0})
  register_with dialled answer cfg now =
      if not dialled then err no_dial else elim (answer (registration_request cfg now)) [
        | none ↦ err no_answer
        | some (accepted, reason) ↦ if not accepted then err (refused reason) else ok tt
      ]

  -- The probe's message to the validator itself.
  unfoldable pub probe_tx : NodeConfig → ℕ → ℕ → Transaction
  probe_tx cfg nonce now =
      Transaction.sign c
        (record {
          from = cfg.validator_addr;
          to = cfg.validator_addr;
          ciphertext = probe_filler;
          nonce_aead = replicate 12 0;
          ephemeral_pubkey = replicate 32 0;
          nonce = nonce;
          timestamp = now;
          signature = [];
        })
        cfg.validator_priv

  unfoldable pub probe_request : NodeConfig → ℕ → ℕ → SmsRequest
  probe_request cfg nonce now =
      let tx = probe_tx cfg nonce now in
      record {
        from_address = tx.from;
        to_address = tx.to;
        ciphertext = tx.ciphertext;
        nonce_aead = replicate 12 0;
        ephemeral_pubkey = replicate 32 0;
        nonce = tx.nonce;
        timestamp = tx.timestamp;
        signature = tx.signature;
      }

-- The loop over the stream, up to its end: whether the hash arrives.
unfoldable pub await_probe : Bytes → List Delivery → Bool
await_probe hash [] = false
await_probe hash (d ∷ ds) =
    let later = await_probe hash ds in if eq_bytes d.tx_hash hash then true else later

pub data ProbeError : Type 0 where
  unreachable unsent no_stream not_delivered : ProbeError
  rejected : Bytes → ProbeError

-- A relay during a probe: whether it is reached, its answer to the message (accepted, its hash, its
-- error), and what its stream gives until the time is up.
pub record Relay : Type 0 where
  pub is_reached : Bool
  pub submit : SmsRequest → Option (Bool × Bytes × Bytes)
  pub stream : Option (List Delivery)

unfoldable pub probe_relay : Crypto → Relay → NodeConfig → ℕ → ℕ → Result ProbeError (Unit {0})
probe_relay c relay cfg nonce now =
    if not relay.is_reached
    then err unreachable
    else elim (relay.submit (probe_request c cfg nonce now)) [
      | none ↦ err unsent
      | some (accepted, hash, why) ↦
          if not accepted then err (rejected why) else elim relay.stream [
            | none ↦ err no_stream
            | some ds ↦ if await_probe hash ds then ok tt else err not_delivered
          ]
    ]
