-- ===== src/Gateway/Registry/Views.antt =====
-- What the reads of the registry give after its writes.
use open_chat.Prelude.{
  ℕ, zero, suc, ◌-◌, ◌<◌, ◌≡◌, refl, sym, ap, ◌∙◌, Bool, Option, none, some, List, [], ◌∷◌, ◌++◌,
  arith, leb, ◌==◌, if◌then◌else◌, length, length-append, take, Option-cases, Bool-cases, inl, inr,
}
use mathlib.Core.List.{append_assoc, append-nil}
use open_chat.Go.Bytes.{Bytes, eq_bytes, eq_bytes_iff}
use open_chat.Go.Map.{lookup, values, lookup-insert}
use open_chat.Gateway.Registry.{Registry, GatewayInfo, upsert, get, set_health, list, list_loop}

-- A record with an address is found under it, stamped with the time, and no other address changes;
-- a record without one changes nothing.
pub get-upsert :
    (r : Registry) (info : GatewayInfo) (now : ℕ) (address : Bytes)
    → get (upsert r (some info) now) address ≡ (
        if eq_bytes info.grpc_address []
        then get r address
        else if eq_bytes info.grpc_address address
        then some (record info { last_seen_unix = now })
        else get r address)
unfolding get upsert
get-upsert r info now address = ground (
  arith,
  lookup-insert r.gateways info.grpc_address address (record info { last_seen_unix = now }),
)

abbrev pub probed : Bool → ℕ → Option GatewayInfo → Option GatewayInfo
probed healthy at none = none
probed healthy at (some g) = some (record g { healthy = healthy; last_probe_unix = at })

-- `SetHealth` changes the health and the probe time of a known gateway, its last sighting not, and
-- adds no unknown one.
pub get-set_health :
    (r : Registry) (address : Bytes) (healthy : Bool) (at : ℕ) (other : Bytes)
    → get (set_health r address healthy at) other
      ≡ (if eq_bytes address other then probed healthy at (get r other) else get r other)
unfolding get set_health
get-set_health r address healthy at other = elim (Option-cases (lookup r.gateways address)) [
  | inl e ↦ ground (arith, eq_bytes_iff address other)
  | inr (g, e) ↦ ground (
    arith,
    eq_bytes_iff address other,
    lookup-insert r.gateways address other (record g { healthy = healthy; last_probe_unix = at }),
  )
]

take-nil : (n : ℕ) → take {A = GatewayInfo} n [] ≡ []
take-nil zero = refl
take-nil (suc n) = refl

take_cons :
    (n : ℕ) (g : GatewayInfo) (gs : List GatewayInfo)
    → 0 < n
    → take n (g ∷ gs) ≡ g ∷ take (n - 1) gs
take_cons zero g gs h = absurd (omega arith)
take_cons (suc n) g gs h = ap (λ (m : ℕ). g ∷ take m gs) (omega arith)

take_none : (n : ℕ) (gs : List GatewayInfo) → n ≡ 0 → take n gs ≡ []
take_none zero gs e = refl
take_none (suc n) gs e = absurd (omega arith)

list_loop-eq-take :
    (max : ℕ) (out gs : List GatewayInfo)
    → length out < max
    → list_loop max out gs ≡ out ++ take (max - length out) gs
unfolding list_loop
list_loop-eq-take max out [] h =
    sym (append-nil out)
    ∙ ap (λ (l : List GatewayInfo). out ++ l) (sym (take-nil (max - length out)))
list_loop-eq-take max out (g ∷ gs) h =
    let one_more = length-append out (g ∷ []) in
    let next = take_cons (max - length out) g gs (omega arith) in
    elim (Bool-cases (leb max (length (out ++ g ∷ [])))) [
      | inl e ↦ ground (arith, one_more, next, take_none (max - length out - 1) gs)
      | inr e ↦ ground (
        arith,
        one_more,
        next,
        list_loop-eq-take max (out ++ g ∷ []) gs (ground (arith, one_more)),
        append_assoc out (g ∷ []) (take (max - length out - 1) gs),
      )
    ]

-- A client that asks for `max` gateways, or for none in particular and so for 20, gets the first
-- that many of the registry's.
pub list-eq-take :
    (r : Registry) (max : ℕ) → list r max ≡ take (if max == 0 then 20 else max) (values r.gateways)
unfolding list
list-eq-take r max =
    let size = if max == 0 then 20 else max in
    let some_room : 0 < size = ground arith in
    list_loop-eq-take size [] (values r.gateways) some_room
    ∙ ap (λ (n : ℕ). take n (values r.gateways)) (omega arith)
