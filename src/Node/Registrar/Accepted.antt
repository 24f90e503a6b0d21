-- ===== src/Node/Registrar/Accepted.antt =====
-- That the two sides of a registration, and of a probe, fit together.
use open_chat.Prelude.{
  ℕ, ◌<◌, ◌≡◌, ◌≢◌, refl, true, false, some, List, [], ◌∷◌, arith, length, ok, Bool-cases, inl, inr,
  ◌++◌,
}
use open_chat.Go.Bytes.{Bytes, IsBytes, eq_bytes, eq_bytes_iff, eq_bytes_refl, eq_bytes_ne}
use open_chat.Go.Hex
use open_chat.Go.Hex.{decode, decode-encode}
use open_chat.Go.Int64.{is_stale, word}
use open_chat.Go.Map.{contains}
use open_chat.Crypto.{Crypto}
use open_chat.Blockchain.Transaction
use open_chat.Blockchain.Transaction.{Transaction, IsTyped, as_public_key, decode_address}
use open_chat.Blockchain.Transaction.SigningBytes
use open_chat.Gateway.Registry.{Registry, upsert}
use open_chat.Gateway.Wire.{tx_from_pb, pb_from_tx, tx_from_pb-pb_from_tx}
use open_chat.Gateway.Proofs.{relay_bytes}
use open_chat.Gateway.Server.{
  Settings, validator_role, register_relay_freshness, version_allowed, relay_info, judge_relay,
  check_relay, register_relay, deliver,
}
use open_chat.Node.Config.{NodeConfig}
use open_chat.Node.Registrar.{
  registration_request, Relay, probe_tx, probe_request, probe_relay, await_probe,
}

-- The address of a node is the one of its key, which has 32 bytes.
pub record HasAddress (c : Crypto) (cfg : NodeConfig) : Type 0 where
  pub own : cfg.validator_addr ≡ Hex.encode (c.public_key cfg.validator_priv)
  pub bytes : IsBytes (c.public_key cfg.validator_priv)
  pub size : length (c.public_key cfg.validator_priv) ≡ 32

module _ (c : Crypto) where
  own_key :
      (cfg : NodeConfig)
      → HasAddress c cfg
      → as_public_key (decode cfg.validator_addr) ≡ ok (c.public_key cfg.validator_priv)
  own_key cfg h =
      rw (h.own, decode-encode (c.public_key cfg.validator_priv) h.bytes) (ground (arith, h.size))

  -- What a relay sends, a validator registers: for a relay with an endpoint, outside the validator
  -- set and at an allowed version, and a request that is not stale when it arrives.
  pub register_relay-registration_request :
      (s : Settings) (r : Registry) (cfg : NodeConfig) (sent now now_unix : ℕ)
      → HasAddress c cfg
      → s.role ≡ validator_role
      → cfg.external_grpc_addr ≢ []
      → is_stale now sent register_relay_freshness ≡ false
      → contains s.validator_set cfg.validator_addr ≡ false
      → version_allowed s cfg.node_version ≡ true
      → register_relay c s r (registration_request c cfg sent) now now_unix
        ≡ (ok tt, upsert r (some (relay_info (registration_request c cfg sent))) now_unix)
  unfolding register_relay judge_relay check_relay registration_request
  register_relay-registration_request s r cfg sent now now_unix h role endpoint fresh outside
        allowed =
      rw
        (
          register_relay,
          judge_relay,
          (eq_bytes_iff s.role validator_role).1 role,
          eq_bytes_ne cfg.external_grpc_addr [] endpoint,
          fresh,
          own_key cfg h,
          check_relay,
          c.verify-sign cfg.validator_priv (
              relay_bytes cfg.validator_addr cfg.external_grpc_addr cfg.node_version cfg.node_commit
                sent),
          outside,
          allowed,
        )
        refl

  probe_tx-IsTyped :
      (cfg : NodeConfig) (nonce now : ℕ)
      → nonce < word
      → now < word
      → IsTyped (probe_tx c cfg nonce now)
  unfolding probe_tx Transaction.sign
  probe_tx-IsTyped cfg nonce now hn ht = record {
    nonce_aead_len = refl;
    ephemeral_len = refl;
    nonce_word = hn;
    timestamp_word = ht;
  }

  -- The stream that is sent for a block with the probe has its hash.
  await_probe-deliver :
      (address : Bytes) (height : ℕ) (tx : Transaction) (front back : List Transaction)
      → tx.to ≡ address
      → await_probe (Transaction.hash c tx) (deliver c address height (front ++ tx ∷ back)) ≡ true
  unfolding await_probe deliver
  await_probe-deliver address height tx [] back mine =
      ground (arith, eq_bytes_iff tx.to address, eq_bytes_refl (Transaction.hash c tx))
  await_probe-deliver address height tx (t ∷ front) back mine =
      elim (Bool-cases (eq_bytes t.to address)) [
        | inl h ↦ ground (arith, h, await_probe-deliver address height tx front back mine)
        | inr h ↦ ground (arith, h, await_probe-deliver address height tx front back mine)
      ]

  -- A probe of a working relay ends well: its message is a transaction that every node verifies, and
  -- if the relay accepts it under its hash and its stream then carries a block with it, whatever else
  -- stands in the block, the probe succeeds.
  pub probe_relay-works :
      (relay : Relay) (cfg : NodeConfig) (nonce now height : ℕ) (front back : List Transaction)
      → HasAddress c cfg
      → nonce < word
      → now < word
      → relay.is_reached ≡ true
      → relay.submit (probe_request c cfg nonce now)
        ≡ some (true, Transaction.hash c (probe_tx c cfg nonce now), [])
      → relay.stream
        ≡ some (deliver c cfg.validator_addr height (front ++ probe_tx c cfg nonce now ∷ back))
      → (tx_from_pb (probe_request c cfg nonce now) ≡ ok (probe_tx c cfg nonce now))
        × (Transaction.verify c (probe_tx c cfg nonce now) ≡ ok tt)
        × (probe_relay c relay cfg nonce now ≡ ok tt)
  unfolding probe_relay probe_request probe_tx pb_from_tx Transaction.sign decode_address
  probe_relay-works relay cfg nonce now height front back h hn ht reached accepts streams = (
    tx_from_pb-pb_from_tx (probe_tx c cfg nonce now) (probe_tx-IsTyped cfg nonce now hn ht),
    SigningBytes.verify-sign c _ cfg.validator_priv (own_key cfg h),
    rw
        (
          probe_relay,
          reached,
          accepts,
          streams,
          await_probe-deliver cfg.validator_addr height (probe_tx c cfg nonce now) front back refl,
        )
        refl,
  )
