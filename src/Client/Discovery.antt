-- ===== src/Client/Discovery.antt =====
-- pkg/client/discovery.go: the gateways that a client knows, and how it connects to one of them. A
-- run takes the world as an argument: how each round shuffles the cache, which dials of it succeed,
-- whether the context ends in the wait behind it, and what the gateways list. Times are milliseconds.
pub mod Candidates
pub mod Reaching
pub mod Waiting
use open_chat.Prelude.{
  ℕ, zero, suc, ◌+◌, ◌*◌, ◌^◌, ◌≤◌, ◌<◌, ◌≡◌, refl, ◌&&◌, ◌||◌, not, Bool, true, false, Option,
  none, some, List, [], ◌∷◌, ◌++◌, arith, length, ltb, if◌then◌else◌, ◌==◌, keep, ◌↔◌,
}
use open_chat.Go.Bytes.{Bytes, eq_bytes, codes}
use open_chat.Go.Map.{contains}

pub record Discovery : Type 0 where
  pub bootstrap : List Bytes
  pub cache : List Bytes
  -- the gateway that the active connection goes to
  pub current : Option Bytes
  pub current_addr : Bytes

abbrev pub default_bootstrap_gateways : List Bytes
default_bootstrap_gateways =
    codes "openchat.node1.mftkhv.ru:443" ∷ codes "openchat.node2.mftkhv.ru:443" ∷ []

abbrev pub initial_backoff : ℕ
initial_backoff = 500

abbrev pub max_backoff : ℕ
max_backoff = 15000

unfoldable pub new_discovery : List Bytes → Discovery
new_discovery bootstrap = record {
  bootstrap = if length bootstrap == 0 then default_bootstrap_gateways else bootstrap;
  cache = [];
  current = none;
  current_addr = [];
}

-- The loop of `candidates`, with the addresses seen so far.
unfoldable pub fresh : List Bytes → List Bytes → List Bytes
fresh seen [] = []
fresh seen (a ∷ rest) =
    let skipped = fresh seen rest in
    let taken = fresh (a ∷ seen) rest in
    if eq_bytes a [] || contains seen a then skipped else a ∷ taken

-- The cache comes shuffled.
unfoldable pub candidates : (List Bytes → List Bytes) → Discovery → Bytes → List Bytes
candidates shuffle d exclude = fresh (exclude ∷ []) (shuffle d.cache ++ d.bootstrap)

-- What is not under the client's control.
pub record World : Type 0 where
  pub shuffle : ℕ → List Bytes → List Bytes
  pub is_reachable : ℕ → Bytes → Bool
  pub is_done : ℕ → Bool
  -- the addresses of a gateway's answer to GetNodesDiscovery, if it gives one
  pub listed : Bytes → Option (List Bytes)

-- The first address whose dial succeeds.
unfoldable pub first_reachable : (Bytes → Bool) → List Bytes → Option Bytes
first_reachable is_reachable [] = none
first_reachable is_reachable (a ∷ rest) =
    let later = first_reachable is_reachable rest in if is_reachable a then some a else later

unfoldable pub refresh_cache : (Bytes → Option (List Bytes)) → Discovery → Discovery
refresh_cache listed d = elim d.current [
  | none ↦ d
  | some gateway ↦ elim (listed gateway) [
    | none ↦ d
    | some addrs ↦ record d { cache = keep (λ (a : Bytes). not (eq_bytes a [])) addrs }
  ]
]

unfoldable pub next_backoff : ℕ → ℕ
next_backoff backoff =
    let doubled = backoff * 2 in if ltb max_backoff doubled then max_backoff else doubled

pub data Outcome : Type 0 where
  connected : Discovery → Outcome
  -- the context ended
  cancelled : Discovery → Outcome
  -- still at it after so many rounds
  dialling : Discovery → ℕ → Outcome

-- The rounds of Connect and Failover, from a round's number and the wait behind it.
unfoldable pub rounds : World → Bytes → ℕ → ℕ → ℕ → Discovery → Outcome
rounds world exclude zero round backoff d = dialling d backoff
rounds world exclude (suc fuel) round backoff d =
    let later = rounds world exclude fuel (suc round) (next_backoff backoff) d in
    elim (first_reachable (world.is_reachable round) (candidates (world.shuffle round) d exclude)) [
      | some addr ↦
          connected
            (refresh_cache world.listed (record d { current = some addr; current_addr = addr }))
      | none ↦ if world.is_done round then cancelled d else later
    ]

unfoldable pub connect : World → ℕ → Discovery → Outcome
connect world fuel d = rounds world [] fuel 0 initial_backoff d

unfoldable pub failover : World → ℕ → Discovery → Outcome
failover world fuel d =
    rounds world d.current_addr fuel 0 initial_backoff (record d { current = none })

unfoldable pub ensure_connected : World → ℕ → Discovery → Outcome
ensure_connected world fuel d = elim d.current [
  | some _ ↦ connected d
  | none ↦ connect world fuel d
]
