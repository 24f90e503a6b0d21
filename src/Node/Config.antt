-- ===== src/Node/Config.antt =====
-- internal/config/config.go: the configuration of a node from its environment. The process's
-- environment and files, and the parsers of the standard library, are parameters; durations are
-- nanoseconds.
pub mod Checked
use open_chat.Prelude.{
  ℕ, ◌*◌, ◌≡◌, ◌≢◌, Bool, true, false, not, Option, none, some, List, [], ◌==◌, if◌then◌else◌,
  arith, length, Result, ok, err, ◌>>=◌, ◌⊎◌, inl, inr, split_chain, Bool-cases, Option-cases,
  ok_inj, subst, sym, ap, ◌∙◌,
}
use open_chat.Go.Bytes.{Bytes, eq_bytes, eq_bytes_iff, codes}
use open_chat.Go.Text.{trim_space}
use open_chat.Go.Hex
use open_chat.Go.Map.{contains}
use open_chat.Crypto.{Crypto}
use open_chat.Client.Primitives.{Primitives}
use open_chat.Node.Lists.{split_csv}

-- Go's `int` and `time.Duration`.
pub data ℤ : Type 0 where
  pos negsuc : ℕ → ℤ

-- os.Getenv, where a missing variable is empty, and os.ReadFile.
pub record Process : Type 0 where
  pub getenv : Bytes → Bytes
  pub read_file : Bytes → Option Bytes

-- strconv.Atoi, strconv.ParseBool, time.ParseDuration and strings.ToLower; `none` is an error.
pub record Parsers : Type 0 where
  pub atoi : Bytes → Option ℤ
  pub parse_bool : Bytes → Option Bool
  pub parse_duration : Bytes → Option ℤ
  pub to_lower : Bytes → Bytes

pub data ConfigError : Type 0 where
  unreadable_key_file no_key bad_key : ConfigError
  no_validators not_a_member relay_is_member unknown_role : ConfigError

pub record NodeConfig : Type 0 where
  pub validator_priv : Bytes
  pub validator_addr : Bytes
  pub db_path : Bytes
  pub p2p_listen_addrs : List Bytes
  pub p2p_bootstrap_peers : List Bytes
  pub validator_set : List Bytes
  pub grpc_listen_addr : Bytes
  pub external_grpc_addr : Bytes
  pub grpc_tls_enabled : Bool
  pub grpc_tls_cert : Bytes
  pub grpc_tls_key : Bytes
  pub gateway_peers : List Bytes
  pub metrics_listen_addr : Bytes
  pub round_timeout : ℤ
  pub block_max_txs : ℤ
  pub log_level : Bytes
  pub node_version : Bytes
  pub node_commit : Bytes
  pub node_role : Bytes
  pub relay_allowed_versions : List Bytes
  pub relay_probe_interval : ℤ
  pub relay_probe_timeout : ℤ
  pub relay_max_failures : ℤ
  pub relay_registration_ttl : ℤ
  pub relay_probe_insecure_tls : Bool
  pub relay_register_with : List Bytes

abbrev pub second : ℕ
second = 1000000000

abbrev pub validator : Bytes
validator = codes "validator"

abbrev pub relay : Bytes
relay = codes "relay"

unfoldable pub get_env : Process → Bytes → Bytes → Bytes
get_env p key default = if eq_bytes (p.getenv key) [] then default else p.getenv key

-- A variable that is set and can be parsed, and the default otherwise.
unfoldable pub get_parsed : {A : Type 0} → (Bytes → Option A) → Process → Bytes → A → A
get_parsed parse p key default =
    if eq_bytes (p.getenv key) []
    then default
    else elim (parse (p.getenv key)) [ none ↦ default | some v ↦ v ]

abbrev pub or_config_error : {A : Type 0} → ConfigError → Option A → Result ConfigError A
or_config_error why none = err why
or_config_error why (some a) = ok a

module _ (c : Crypto) (P : Primitives) (p : Process) where
  unfoldable pub seed_hex : Result ConfigError Bytes
  seed_hex =
      let path = p.getenv (codes "VALIDATOR_PRIVATE_KEY_FILE") in
      if eq_bytes path []
      then ok (trim_space (p.getenv (codes "VALIDATOR_PRIVATE_KEY_SEED")))
      else elim (p.read_file path) [ none ↦ err unreadable_key_file | some b ↦ ok (trim_space b) ]

  -- The private key and its address.
  unfoldable pub key_of_hex : Bytes → Result ConfigError (Bytes × Bytes)
  key_of_hex hex = if eq_bytes hex [] then err no_key else elim (Hex.decode hex) [
    | none ↦ err bad_key
    | some seed ↦
        if not (length seed == 32)
        then err bad_key
        else ok (P.key_from_seed seed, Hex.encode (c.public_key (P.key_from_seed seed)))
  ]

  unfoldable pub load_validator_key : Result ConfigError (Bytes × Bytes)
  load_validator_key = do hex ← seed_hex; key_of_hex hex

  pub key_of_hex-matched :
      (hex : Bytes) (pair : Bytes × Bytes)
      → key_of_hex hex ≡ ok pair
      → pair.1 ≡ Hex.encode (c.public_key pair.0)
  unfolding key_of_hex
  key_of_hex-matched hex pair e = elim (Bool-cases (eq_bytes hex [])) [
    | inl h ↦ absurd (ground (arith, rw (key_of_hex, h) at e))
    | inr h ↦ elim (Option-cases (Hex.decode hex)) [
      | inl d ↦ absurd (ground (arith, rw (key_of_hex, h, d) at e))
      | inr (seed, d) ↦ elim (Bool-cases (length seed == 32)) [
        | inr l ↦ absurd (ground (arith, rw (key_of_hex, h, d, l) at e))
        | inl l ↦
            let same = ok_inj (rw (key_of_hex, h, d, l) at e) in
            sym (ap (λ (q : Bytes × Bytes). q.1) same)
            ∙ ap (λ (q : Bytes × Bytes). Hex.encode (c.public_key q.0)) same
      ]
    ]
  ]

  module _ (R : Parsers) where
    abbrev pub config_of : Bytes → Bytes → NodeConfig
    config_of priv addr = record {
      validator_priv = priv;
      validator_addr = addr;
      db_path = get_env p (codes "DB_PATH") (codes "/data/openchat-db");
      p2p_listen_addrs =
          split_csv (get_env p (codes "P2P_LISTEN_ADDRS") (codes "/ip4/0.0.0.0/tcp/4001"));
      p2p_bootstrap_peers = split_csv (get_env p (codes "P2P_BOOTSTRAP_PEERS") []);
      validator_set = split_csv (p.getenv (codes "VALIDATOR_SET"));
      grpc_listen_addr = get_env p (codes "GRPC_LISTEN_ADDR") (codes "0.0.0.0:9090");
      external_grpc_addr =
          get_env p (codes "GRPC_EXTERNAL_ADDR")
            (get_env p (codes "GRPC_LISTEN_ADDR") (codes "0.0.0.0:9090"));
      grpc_tls_enabled = get_parsed R.parse_bool p (codes "GRPC_TLS_ENABLED") true;
      grpc_tls_cert = get_env p (codes "GRPC_TLS_CERT_FILE") (codes "/etc/openchat/tls/tls.crt");
      grpc_tls_key = get_env p (codes "GRPC_TLS_KEY_FILE") (codes "/etc/openchat/tls/tls.key");
      gateway_peers = split_csv (get_env p (codes "GATEWAY_PEERS") []);
      metrics_listen_addr = get_env p (codes "METRICS_LISTEN_ADDR") (codes "0.0.0.0:2112");
      round_timeout =
          get_parsed R.parse_duration p (codes "CONSENSUS_ROUND_TIMEOUT") (pos (4 * second));
      block_max_txs = get_parsed R.atoi p (codes "CONSENSUS_BLOCK_MAX_TXS") (pos 500);
      log_level = get_env p (codes "LOG_LEVEL") (codes "info");
      node_version = get_env p (codes "NODE_VERSION") (codes "dev");
      node_commit = get_env p (codes "NODE_COMMIT") (codes "unknown");
      node_role = R.to_lower (get_env p (codes "NODE_ROLE") validator);
      relay_allowed_versions = split_csv (get_env p (codes "RELAY_ALLOWED_VERSIONS") []);
      relay_probe_interval =
          get_parsed R.parse_duration p (codes "RELAY_PROBE_INTERVAL") (pos (60 * second));
      relay_probe_timeout =
          get_parsed R.parse_duration p (codes "RELAY_PROBE_TIMEOUT") (pos (15 * second));
      relay_max_failures = get_parsed R.atoi p (codes "RELAY_MAX_CONSECUTIVE_FAILURES") (pos 3);
      relay_registration_ttl =
          get_parsed R.parse_duration p (codes "RELAY_REGISTRATION_TTL") (pos (600 * second));
      relay_probe_insecure_tls = get_parsed R.parse_bool p (codes "RELAY_PROBE_INSECURE_TLS") false;
      relay_register_with = split_csv (get_env p (codes "RELAY_REGISTER_WITH") []);
    }

    unfoldable pub check_role : NodeConfig → Result ConfigError NodeConfig
    check_role cfg =
        if eq_bytes cfg.node_role validator
        then if not (contains cfg.validator_set cfg.validator_addr)
          then err not_a_member
          else ok cfg
        else if eq_bytes cfg.node_role relay
        then if contains cfg.validator_set cfg.validator_addr then err relay_is_member else ok cfg
        else err unknown_role

    unfoldable pub check_config : NodeConfig → Result ConfigError NodeConfig
    check_config cfg = if length cfg.validator_set == 0 then err no_validators else check_role cfg

    unfoldable pub load_node_config : Result ConfigError NodeConfig
    load_node_config = do (priv, addr) ← load_validator_key; check_config (config_of priv addr)
