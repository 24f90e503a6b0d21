-- ===== src/Examples/Programs.antt =====
-- The configuration of a node, and a relay under probe, at concrete values.
use open_chat.Prelude.{
  drop, Option, ◌≡◌, refl, true, none, some, [], ◌∷◌, ◌++◌, arith, if◌then◌else◌, ok,
}
use open_chat.Go.Bytes.{Bytes, eq_bytes, codes}
use open_chat.Go.Map.{contains}
use open_chat.Crypto.{toy, Crypto, verify-sign_toy}
use open_chat.Client.Primitives.{Primitives}
use open_chat.Network.{peer_id_from_seed, identity_from_seed, expand_seed}
use open_chat.Commands.{keytool, seed_of}
use open_chat.Commands.Keytool.{keytool-load_validator_key}
use open_chat.Blockchain.Transaction
use open_chat.Blockchain.Transaction.{Transaction}
use open_chat.Gateway.Wire.{tx_from_pb}
use open_chat.Gateway.Server.{deliver}
use open_chat.Go.Hex.{encode, decode}
use open_chat.Go.Text.{trim_space, strip_any, strip_prefix, split}
use open_chat.Node.Lists.{split_csv}
use open_chat.Node.Config.{
  load_validator_key, seed_hex, key_of_hex, check_config, check_role, get_env, Process, Parsers,
  NodeConfig, config_of, load_node_config,
}
use open_chat.Node.Program.{has_engine, parts_of, has_engine_iff}
use open_chat.Node.Registrar.{Relay, probe_tx, probe_request, probe_relay}
use open_chat.Node.Registrar.Accepted.{HasAddress, probe_relay-works}
use open_chat.Examples.Toys.{alice, alice_key, greeting, copies}
use open_chat.Examples.Keyrings.{sums, copies-IsBytes}

-- An environment with a key and a set of one validator, whose key it is.
abbrev environment : Process
environment = record {
  getenv = λ key.
      if eq_bytes key (codes "VALIDATOR_SET")
      then alice
      else if eq_bytes key (codes "VALIDATOR_PRIVATE_KEY_SEED")
      then alice
      else [];
  read_file = λ path. none;
}

abbrev parsers : Parsers
parsers = record {
  atoi = λ s. none;
  parse_bool = λ s. none;
  parse_duration = λ s. none;
  to_lower = λ s. s;
}

abbrev own_config : NodeConfig
own_config = config_of toy sums environment parsers alice_key alice

own_config_lem : load_node_config toy sums environment parsers ≡ ok own_config
unfolding load_node_config load_validator_key seed_hex eq_bytes key_of_hex trim_space strip_any
    strip_prefix decode check_config split_csv split check_role get_env contains encode
own_config_lem = refl

has_engine_iff_example :
    has_engine (parts_of own_config.node_role)
    ≡ contains own_config.validator_set own_config.validator_addr
has_engine_iff_example = has_engine_iff toy sums environment parsers own_config own_config_lem

own_config-HasAddress : HasAddress toy own_config
unfolding encode
own_config-HasAddress = record {
  own = refl;
  bytes = copies-IsBytes 32 1 (omega arith);
  size = refl;
}

-- A relay that puts the probe into a block of its own.
abbrev honest_relay : Relay
honest_relay = record {
  is_reached = true;
  submit = λ req. some (true, Transaction.hash toy (probe_tx toy own_config 7 1000), []);
  stream = some (deliver toy alice 4 ([] ++ probe_tx toy own_config 7 1000 ∷ greeting 3 ∷ []));
}

probe_relay-works_example :
    (tx_from_pb (probe_request toy own_config 7 1000) ≡ ok (probe_tx toy own_config 7 1000))
    × (Transaction.verify toy (probe_tx toy own_config 7 1000) ≡ ok tt)
    × (probe_relay toy honest_relay own_config 7 1000 ≡ ok tt)
probe_relay-works_example =
    probe_relay-works toy honest_relay own_config 7 1000 4 [] (greeting 3 ∷ [])
      own_config-HasAddress (omega arith) (omega arith) refl refl refl

-- Private keys of 64 bytes, the second half of which is the public key.
abbrev doubled : Primitives
doubled = record sums { key_from_seed = λ seed. seed ++ seed }

abbrev halves : Crypto
halves = record {
  sha256 = λ m. m;
  public_key = λ k. drop 32 k;
  sign = λ k m. drop 32 k ++ m;
  verify = λ k m s. eq_bytes (k ++ m) s;
  verify-sign = λ k m. verify-sign_toy (drop 32 k) m;
}

abbrev prefixed : Bytes → Option Bytes
prefixed key = some (0 ∷ key)

keytool-load_validator_key_example :
    (priv : Bytes) × (load_validator_key halves doubled environment ≡ ok (priv, alice))
    × (peer_id_from_seed doubled some prefixed priv ≡ some (0 ∷ copies 64 1))
unfolding keytool seed_of peer_id_from_seed identity_from_seed expand_seed eq_bytes encode
keytool-load_validator_key_example =
    keytool-load_validator_key halves doubled environment some prefixed alice_key alice alice
      (0 ∷ copies 64 1) (copies-IsBytes 32 1 (omega arith)) refl refl refl refl refl
