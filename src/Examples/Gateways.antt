-- ===== src/Examples/Gateways.antt =====
-- A registry of two gateways.
use open_chat.Prelude.{false, [], ◌∷◌, some}
use open_chat.Go.Bytes.{Bytes, codes}
use open_chat.Gateway.Registry.{GatewayInfo, Registry, new_registry, relay_role}

abbrev gateway : Bytes → GatewayInfo
gateway address = record {
  grpc_address = address;
  validator_address = codes "v";
  role = relay_role;
  node_version = codes "1";
  healthy = false;
  last_seen_unix = 0;
  last_probe_unix = 0;
}

abbrev known : Registry
known = new_registry (some (gateway (codes "a:1")) ∷ some (gateway (codes "b:2")) ∷ []) 100
