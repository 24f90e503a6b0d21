-- ===== src/Gateway/Registry.antt =====
-- internal/grpcserver/registry.go: the gateways that this node knows of, by address. The clock is an
-- argument, in seconds.
pub mod Views
use open_chat.Prelude.{
  ℕ, zero, ◌≡◌, Bool, true, false, Option, none, some, List, [], ◌∷◌, ◌++◌, leb, ◌==◌,
  if◌then◌else◌, length, take, keep,
}
use open_chat.Go.Bytes.{Bytes, codes, eq_bytes}
use open_chat.Go.Map.{Map, lookup, insert, values}

pub record GatewayInfo : Type 0 where
  pub grpc_address : Bytes
  pub validator_address : Bytes
  pub role : Bytes
  pub node_version : Bytes
  pub healthy : Bool
  pub last_seen_unix : ℕ
  pub last_probe_unix : ℕ

pub record Registry : Type 0 where
  pub gateways : Map GatewayInfo

unfoldable pub empty : Registry
empty = record { gateways = [] }

-- `none` is a nil pointer.
unfoldable pub upsert : Registry → Option GatewayInfo → ℕ → Registry
upsert r none now = r
upsert r (some info) now = if eq_bytes info.grpc_address [] then r else record {
  gateways = insert r.gateways info.grpc_address (record info { last_seen_unix = now });
}

upsert_all : Registry → List (Option GatewayInfo) → ℕ → Registry
upsert_all r [] now = r
upsert_all r (g ∷ seed) now = upsert_all (upsert r g now) seed now

unfoldable pub new_registry : List (Option GatewayInfo) → ℕ → Registry
unfolding upsert_all empty
new_registry seed now = upsert_all empty seed now

unfoldable pub get : Registry → Bytes → Option GatewayInfo
get r address = lookup r.gateways address

unfoldable pub set_health : Registry → Bytes → Bool → ℕ → Registry
set_health r address healthy probed_at = elim (lookup r.gateways address) [
  | none ↦ r
  | some g ↦ record {
    gateways =
        insert r.gateways address (record g { healthy = healthy; last_probe_unix = probed_at });
  }
]

abbrev pub relay_role : Bytes
relay_role = codes "relay"

unfoldable pub all_relays : Registry → List GatewayInfo
all_relays r = keep (λ (g : GatewayInfo). eq_bytes g.role relay_role) (values r.gateways)

-- The loop appends before it looks at the bound.
unfoldable pub list_loop : ℕ → List GatewayInfo → List GatewayInfo → List GatewayInfo
list_loop max out [] = out
list_loop max out (g ∷ gs) =
    let out' = out ++ g ∷ [] in
    let more = list_loop max out' gs in if leb max (length out') then out' else more

unfoldable pub list : Registry → ℕ → List GatewayInfo
unfolding list_loop
list r max = list_loop (if max == 0 then 20 else max) [] (values r.gateways)

unfoldable pub snapshot : Registry → List GatewayInfo
snapshot r = values r.gateways
