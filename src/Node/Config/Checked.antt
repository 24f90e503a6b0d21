-- ===== src/Node/Config/Checked.antt =====
-- What a configuration that loads is known to be.
use open_chat.Prelude.{
  ◌≡◌, ◌≢◌, true, false, [], ◌==◌, arith, length, ok, ◌⊎◌, inl, inr, split_chain, Bool-cases,
  ok_inj, subst, ap,
}
use open_chat.Go.Bytes.{eq_bytes, eq_bytes_iff}
use open_chat.Go.Hex
use open_chat.Go.Map.{contains}
use open_chat.Crypto.{Crypto}
use open_chat.Client.Primitives.{Primitives}
use open_chat.Node.Config.{
  Process, Parsers, NodeConfig, validator, relay, seed_hex, load_validator_key, config_of,
  check_role, check_config, load_node_config, key_of_hex-matched,
}

abbrev HasRole : NodeConfig → Type 0
HasRole cfg =
    ((cfg.node_role ≡ validator) × (contains cfg.validator_set cfg.validator_addr ≡ true))
    ⊎ ((cfg.node_role ≡ relay) × (contains cfg.validator_set cfg.validator_addr ≡ false))

module _ (c : Crypto) (P : Primitives) (p : Process) (R : Parsers) where
  -- What the role check lets through, it leaves as it is.
  check_role-ok :
      (cfg cfg' : NodeConfig) → check_role c P p R cfg ≡ ok cfg' → (cfg ≡ cfg') × HasRole cfg
  unfolding check_role
  check_role-ok cfg cfg' e = elim (Bool-cases (eq_bytes cfg.node_role validator)) [
    | inl v ↦ elim (Bool-cases (contains cfg.validator_set cfg.validator_addr)) [
      | inl m ↦
          (ok_inj (rw (check_role, v, m) at e), inl ((eq_bytes_iff cfg.node_role validator).0 v, m))
      | inr m ↦ absurd (ground (arith, rw (check_role, v, m) at e))
    ]
    | inr v ↦ elim (Bool-cases (eq_bytes cfg.node_role relay)) [
      | inl r ↦ elim (Bool-cases (contains cfg.validator_set cfg.validator_addr)) [
        | inl m ↦ absurd (ground (arith, rw (check_role, v, r, m) at e))
        | inr m ↦ (
          ok_inj (rw (check_role, v, r, m) at e),
          inr ((eq_bytes_iff cfg.node_role relay).0 r, m),
        )
      ]
      | inr r ↦ absurd (ground (arith, rw (check_role, v, r) at e))
    ]
  ]

  check_config-ok :
      (cfg cfg' : NodeConfig)
      → check_config c P p R cfg ≡ ok cfg'
      → (cfg ≡ cfg') × HasRole cfg × (cfg.validator_set ≢ [])
  unfolding check_config
  check_config-ok cfg cfg' e = elim (Bool-cases (length cfg.validator_set == 0)) [
    | inl empty ↦ absurd (ground (arith, rw (check_config, empty) at e))
    | inr full ↦
        let (same, role) = check_role-ok cfg cfg' (rw (check_config, full) at e) in
        (same, role, λ none. absurd (ground (arith, ap length none)))
  ]

  -- A configuration that loads has a validator set; its role is one of two, and a validator stands
  -- in the set while a relay does not; its address is the one of its private key.
  pub load_node_config_lem :
      (cfg : NodeConfig)
      → load_node_config c P p R ≡ ok cfg
      → (((cfg.node_role ≡ validator) × (contains cfg.validator_set cfg.validator_addr ≡ true))
          ⊎ ((cfg.node_role ≡ relay) × (contains cfg.validator_set cfg.validator_addr ≡ false)))
        × (cfg.validator_set ≢ [])
        × (cfg.validator_addr ≡ Hex.encode (c.public_key cfg.validator_priv))
  unfolding load_node_config load_validator_key
  load_node_config_lem cfg e =
      let (pair, rest, made) = split_chain _ (load_validator_key c P p) e in
      let (hex, keyed, read) = split_chain _ (seed_hex c P p) made in
      let (same, role, full) = check_config-ok (config_of c P p R pair.0 pair.1) cfg rest in
      subst
        (λ (k : NodeConfig).
          HasRole k
          × (k.validator_set ≢ [])
          × (k.validator_addr ≡ Hex.encode (c.public_key k.validator_priv)))
        same (role, full, key_of_hex-matched c P p hex pair keyed)
