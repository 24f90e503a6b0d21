-- ===== src/Gateway/Server/Relays.antt =====
-- Who gets into the registry by `RegisterRelay`, and who opens a stream.
use open_chat.Prelude.{
  ℕ, ◌^◌, ◌≤◌, ◌⊎◌, leb, if◌then◌else◌, Bool-cases, ◌≡◌, refl, true, false, some, [], ◌++◌, arith,
  ok, err, Result-cases, inl, inr,
}
use open_chat.Go.Bytes.{Bytes, codes, eq_bytes, eq_bytes_iff}
use open_chat.Go.Hex.{decode}
use open_chat.Go.Int64.{is_stale, distance, is_stale-eq-distance}
use open_chat.Go.Map.{contains}
use open_chat.Crypto.{Crypto}
use open_chat.Blockchain.Transaction.{as_public_key}
use open_chat.Gateway.Registry.{Registry, get}
use open_chat.Gateway.Registry.Views.{get-upsert}
use open_chat.Gateway.Proofs.{auth_bytes, relay_bytes, shifted_endpoint}
use open_chat.Gateway.Server.{
  Settings, RegisterRelayRequest, Reason, validator_role, stream_auth_freshness,
  register_relay_freshness, version_allowed, relay_info, verify_stream_auth, check_relay,
  judge_relay, register_relay,
}

-- What an accepted registration has shown.
pub record Vetted (c : Crypto) (s : Settings) (req : RegisterRelayRequest) (now : ℕ) : Type 0 where
  pub key : Bytes
  pub by_validator : s.role ≡ validator_role
  pub has_endpoint : eq_bytes req.relay_grpc_address [] ≡ false
  pub fresh : is_stale now req.timestamp register_relay_freshness ≡ false
  pub own_key : as_public_key (decode req.relay_address) ≡ ok key
  pub signed :
      c.verify key
        (relay_bytes req.relay_address req.relay_grpc_address req.node_version req.node_commit
          req.timestamp)
        req.signature
      ≡ true
  pub outsider : contains s.validator_set req.relay_address ≡ false
  pub allowed : version_allowed s req.node_version ≡ true

module _ (c : Crypto) where
  judge_relay-Vetted :
      (s : Settings) (req : RegisterRelayRequest) (now : ℕ)
      → judge_relay c s req now ≡ ok tt
      → Vetted c s req now
  unfolding judge_relay check_relay
  judge_relay-Vetted s req now h = elim (Result-cases (as_public_key (decode req.relay_address))) [
    | inl (e, bad) ↦ absurd (ground arith)
    | inr (key, good) ↦ record {
      key = key;
      by_validator = ground (arith, eq_bytes_iff s.role validator_role);
      has_endpoint = ground arith;
      fresh = ground arith;
      own_key = good;
      signed = ground arith;
      outsider = ground arith;
      allowed = ground arith;
    }
  ]

  -- The window of a registration is five minutes, where the clock and the request are plausible.
  Vetted-near :
      (s : Settings) (req : RegisterRelayRequest) (now : ℕ)
      → Vetted c s req now
      → (2 ^ 43 ≤ now) ⊎ (2 ^ 43 ≤ req.timestamp) ⊎ (distance now req.timestamp ≤ 300000)
  Vetted-near s req now v = elim (Bool-cases (leb (2 ^ 43) now)) [
    | inl late ↦ inl (ground (arith, late))
    | inr early ↦ elim (Bool-cases (leb (2 ^ 43) req.timestamp)) [
      | inl far ↦ inr (inl (ground (arith, far)))
      | inr near ↦
          let exact =
            is_stale-eq-distance now req.timestamp 300000 (ground (arith, early))
              (ground (arith, near)) (ground (arith, early, near)) (omega arith) in
          let fresh = v.fresh in inr (inr (ground (arith, exact, fresh)))
    ]
  ]

  -- A registration is accepted only by a validator, and only for a request that the owner of the
  -- address signed, from an address outside the validator set, at an allowed version, whose timestamp
  -- passes the check of the code, and so, while both are below 2 ^ 43 ms, is at most five minutes
  -- from the clock. The registry then has the relay under its endpoint, with the address and the
  -- version of the request, as a healthy relay that was just seen and never probed, and every other
  -- gateway as before.
  pub register_relay-ok :
      (s : Settings) (r : Registry) (req : RegisterRelayRequest) (now now_unix : ℕ)
      (endpoint : Bytes)
      → (register_relay c s r req now now_unix).0 ≡ ok tt
      → Vetted c s req now
        × ((2 ^ 43 ≤ now) ⊎ (2 ^ 43 ≤ req.timestamp) ⊎ (distance now req.timestamp ≤ 300000))
        × (get (register_relay c s r req now now_unix).1 endpoint ≡ (
            if eq_bytes req.relay_grpc_address endpoint
            then some (record {
              grpc_address = req.relay_grpc_address;
              validator_address = req.relay_address;
              role = codes "relay";
              node_version = req.node_version;
              healthy = true;
              last_seen_unix = now_unix;
              last_probe_unix = 0;
            })
            else get r endpoint))
  unfolding register_relay
  register_relay-ok s r req now now_unix endpoint h =
      elim (Result-cases (judge_relay c s req now)) [
        | inl (e, bad) ↦ absurd (ground arith)
        | inr (u, good) ↦
            let vetted = judge_relay-Vetted s req now good in
            (
              vetted,
              Vetted-near s req now vetted,
              rw (good, register_relay)
                  (ground
                    (arith, vetted.has_endpoint, get-upsert r (relay_info req) now_unix endpoint)),
            )
      ]

  -- A registration that is refused, for whatever reason, leaves the registry as it was.
  pub register_relay-err :
      (s : Settings) (r : Registry) (req : RegisterRelayRequest) (now now_unix : ℕ) {e : Reason}
      → (register_relay c s r req now now_unix).0 ≡ err e
      → (register_relay c s r req now now_unix).1 ≡ r
  unfolding register_relay
  register_relay-err s r req now now_unix h = elim (Result-cases (judge_relay c s req now)) [
    | inl (e, bad) ↦ rw (bad, register_relay) refl
    | inr (u, good) ↦ absurd (ground arith)
  ]

  -- What the owner of an address signs for a stream is accepted while it is fresh.
  pub verify_stream_auth-sign :
      (address priv : Bytes) (timestamp now : ℕ)
      → as_public_key (decode address) ≡ ok (c.public_key priv)
      → is_stale now timestamp stream_auth_freshness ≡ false
      → verify_stream_auth c
          (record {
            address = address;
            timestamp = timestamp;
            signature = c.sign priv (auth_bytes address timestamp);
          })
          now
        ≡ ok tt
  unfolding verify_stream_auth
  verify_stream_auth-sign address priv timestamp now own fresh =
      rw fresh (rw own (rw (c.verify-sign priv (auth_bytes address timestamp)) refl))

abbrev pub longer_endpoint : RegisterRelayRequest → Bytes → RegisterRelayRequest
longer_endpoint req tail = record req { relay_grpc_address = req.relay_grpc_address ++ tail }

abbrev pub longer_version : RegisterRelayRequest → Bytes → RegisterRelayRequest
longer_version req tail = record req { node_version = tail ++ req.node_version }

-- The signature of a registration also fits the one whose endpoint's end stands in front of the
-- version: if one is vetted and both have an endpoint and an allowed version, so is the other.
pub shifted_registration :
    (c : Crypto) (s : Settings) (req : RegisterRelayRequest) (tail : Bytes) (now : ℕ)
    → Vetted c s (longer_version req tail) now
    → eq_bytes (req.relay_grpc_address ++ tail) [] ≡ false
    → version_allowed s req.node_version ≡ true
    → Vetted c s (longer_endpoint req tail) now
shifted_registration c s req tail now v endpoint version = record {
  key = v.key;
  by_validator = v.by_validator;
  has_endpoint = endpoint;
  fresh = v.fresh;
  own_key = v.own_key;
  signed =
      rw
        (shifted_endpoint req.relay_address req.relay_grpc_address tail req.node_version
          req.node_commit req.timestamp)
        v.signed;
  outsider = v.outsider;
  allowed = version;
}
