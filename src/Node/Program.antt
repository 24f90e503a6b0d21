-- ===== src/Node/Program.antt =====
-- cmd/node/main.go and durability.go: what the node's program starts for its role, the gateways that
-- its registry begins with, and the gossip of transactions into and out of its pool.
use open_chat.Prelude.{
  ℕ, ◌≡◌, refl, Bool, true, false, Option, none, some, List, [], ◌∷◌, map, if◌then◌else◌, ok, inl,
  inr,
}
use open_chat.Go.Bytes.{Bytes, eq_bytes}
use open_chat.Go.Map.{contains}
use open_chat.Crypto.{Crypto}
use open_chat.Blockchain.Transaction.{Transaction}
use open_chat.Mempool.{Mempool, RateLimiter, NonceSource, add, propose, max_pool_size}
use open_chat.Gateway.Registry.{GatewayInfo}
use open_chat.Client.Primitives.{Primitives}
use open_chat.Node.Config.{NodeConfig, Process, Parsers, validator, relay, load_node_config}
use open_chat.Node.Config.Checked.{load_node_config_lem}

-- The goroutines that depend on the role.
pub data Part : Type 0 where
  engine announcer heartbeat health_prober chain_sync registrar : Part

unfoldable pub parts_of : Bytes → List Part
parts_of role =
    if eq_bytes role validator
    then engine ∷ announcer ∷ heartbeat ∷ health_prober ∷ []
    else if eq_bytes role relay
    then chain_sync ∷ registrar ∷ []
    else []

abbrev pub has_engine : List Part → Bool
has_engine [] = false
has_engine (engine ∷ ps) = true
has_engine (announcer ∷ ps) = has_engine ps
has_engine (heartbeat ∷ ps) = has_engine ps
has_engine (health_prober ∷ ps) = has_engine ps
has_engine (chain_sync ∷ ps) = has_engine ps
has_engine (registrar ∷ ps) = has_engine ps

-- A peer from the configuration is an endpoint and nothing more.
abbrev pub peer_info : Bytes → Option GatewayInfo
peer_info addr = some (record {
  grpc_address = addr;
  validator_address = [];
  role = [];
  node_version = [];
  healthy = false;
  last_seen_unix = 0;
  last_probe_unix = 0;
})

unfoldable pub seed_gateways : NodeConfig → List (Option GatewayInfo)
seed_gateways cfg =
    some (record {
      grpc_address = cfg.external_grpc_addr;
      validator_address = cfg.validator_addr;
      role = cfg.node_role;
      node_version = cfg.node_version;
      healthy = true;
      last_seen_unix = 0;
      last_probe_unix = 0;
    })
    ∷ map peer_info cfg.gateway_peers

module _ (c : Crypto) (R : RateLimiter) where
  -- One turn of the gossip's reader: `json.Unmarshal` and `Add`, whose error is only logged.
  unfoldable pub hear_tx :
      (Bytes → Option Transaction) → Mempool c R → NonceSource → ℕ → Bytes → Mempool c R
  hear_tx unmarshal m nonces now message = elim (unmarshal message) [
    | none ↦ m
    | some tx ↦ (add c R m nonces now tx).1
  ]

  -- One pass of the repeated gossip: what is published, in its order. Errors are only logged.
  unfoldable pub regossip : Mempool c R → List Transaction
  regossip m = propose c R m max_pool_size

-- A node whose configuration loads runs the consensus engine if and only if its address stands in the
-- validator set.
pub has_engine_iff :
    (c : Crypto) (P : Primitives) (p : Process) (R : Parsers) (cfg : NodeConfig)
    → load_node_config c P p R ≡ ok cfg
    → has_engine (parts_of cfg.node_role) ≡ contains cfg.validator_set cfg.validator_addr
unfolding parts_of eq_bytes
has_engine_iff c P p R cfg loaded = elim (load_node_config_lem c P p R cfg loaded).0 [
  | inl (role, member) ↦ rw (parts_of, role, member) refl
  | inr (role, outside) ↦ rw (parts_of, role, outside) refl
]
