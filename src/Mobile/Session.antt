-- ===== src/Mobile/Session.antt =====
-- mobile/session.go and mobile/history.go: one user's connection, with at most one listener. The
-- goroutines of the app are the order of the calls: a listener begins with `begin_listen` and ends
-- with `end_listen`.
use open_chat.Prelude.{
  ℕ, ◌+◌, ◌≤◌, ◌≡◌, refl, Bool, true, false, not, Option, none, some, List, [], ◌∷◌, if◌then◌else◌,
  arith, keep, map, Result, ok, err, ok_inj, subst, ap, sym, Option-cases, inl, inr,
}
use open_chat.Go.Bytes.{Bytes, eq_bytes}
use open_chat.Go.Text.{trim_space, split}
use open_chat.Go.Map.{Map, insert}
use open_chat.Client.Wallet.{Wallet, decode_recipient_x25519}
use open_chat.Client.Discovery.{Discovery, new_discovery}
use open_chat.Client.History.{
  HistoryEvent, Fetched, Stop, caught_up, ended, no_gateway, scanning, rpc_failed,
}

pub record Session : Type 0 where
  pub wallet : Wallet
  pub discovery : Discovery
  -- whether a listener runs, and whether it was asked to stop
  pub listener : Option Bool

-- The gateways of the comma-separated list.
unfoldable pub bootstrap_of : Bytes → List Bytes
bootstrap_of csv =
    let trimmed = trim_space csv in
    if eq_bytes trimmed []
    then []
    else keep (λ (s : Bytes). not (eq_bytes s [])) (map trim_space (split 44 trimmed))

pub data SessionError : Type 0 where
  nil_wallet bad_tls already_listening : SessionError
  failed : Stop → SessionError
  bad_keys bad_events : SessionError

-- Whether the TLS credentials load is an argument.
unfoldable pub new_session : Option Wallet → Bytes → Bool → Result SessionError Session
new_session none csv tls = err nil_wallet
new_session (some w) csv tls =
    if not tls
    then err bad_tls
    else ok (record { wallet = w; discovery = new_discovery (bootstrap_of csv); listener = none })

unfoldable pub begin_listen : Session → Result SessionError Session
begin_listen s = elim s.listener [
  | some _ ↦ err already_listening
  | none ↦ ok (record s { listener = some false })
]

unfoldable pub end_listen : Session → Session
end_listen s = record s { listener = none }

-- A running listener is asked to stop; where none runs, nothing happens.
abbrev pub asked_to_stop : Option Bool → Option Bool
asked_to_stop none = none
asked_to_stop (some _) = some true

unfoldable pub stop : Session → Session
stop s = record s { listener = asked_to_stop s.listener }

-- The keys that can be read, from the decoded JSON.
unfoldable pub raw_keys : List (Bytes × Bytes) → Map Bytes → Map Bytes
raw_keys [] known = known
raw_keys ((addr, hex_key) ∷ rest) known = elim (decode_recipient_x25519 hex_key) [
  | none ↦ raw_keys rest known
  | some pub_key ↦ raw_keys rest (insert known addr pub_key)
]

-- The keys to begin with: an empty text stands for none, and `json.Unmarshal` is an argument.
unfoldable pub known_of :
    (Bytes → Option (List (Bytes × Bytes))) → Bytes → Result SessionError (Map Bytes)
known_of unmarshal text =
    if eq_bytes text []
    then ok []
    else elim (unmarshal text) [ none ↦ err bad_keys | some known ↦ ok (raw_keys known []) ]

-- The result for the app: the events as JSON, and the height to go on from.
unfoldable pub history_result :
    (List HistoryEvent → Option Bytes) → Fetched → Result SessionError (Bytes × ℕ)
history_result marshal f = elim f.stop [
  | caught_up ↦ elim (marshal f.scan.events) [
    | none ↦ err bad_events
    | some raw ↦ ok (raw, f.height)
  ]
  | ended ↦ err (failed ended)
  | no_gateway ↦ err (failed no_gateway)
  | scanning ↦ err (failed scanning)
  | rpc_failed why ↦ err (failed (rpc_failed why))
]

-- The events of an app's session: a call of Listen that gets through, the return of a listener, and
-- a call of Stop.
pub data Call : Type 0 where
  begin finish halt : Call

pub data Step : Session → Call → Session → Type 0 where
  begins : (s s' : Session) → begin_listen s ≡ ok s' → Step s begin s'
  finishes : (s : Session) (asked : Bool) → s.listener ≡ some asked → Step s finish (end_listen s)
  halts : (s : Session) → Step s halt (stop s)

pub data Run : Session → List Call → Session → Type 0 where
  done : (s : Session) → Run s [] s
  next :
      (s s' s'' : Session) (call : Call) (calls : List Call)
      → Step s call s'
      → Run s' calls s''
      → Run s (call ∷ calls) s''

abbrev pub counted : Option Bool → ℕ
counted none = 0
counted (some _) = 1

abbrev pub running : Session → ℕ
running s = counted s.listener

abbrev pub begun : Call → ℕ
begun begin = 1
begun finish = 0
begun halt = 0

abbrev pub finished : Call → ℕ
finished begin = 0
finished finish = 1
finished halt = 0

abbrev pub total : (Call → ℕ) → List Call → ℕ
total count [] = 0
total count (call ∷ calls) = count call + total count calls

counted-asked_to_stop : (o : Option Bool) → counted (asked_to_stop o) ≡ counted o
counted-asked_to_stop none = refl
counted-asked_to_stop (some _) = refl

balance_kept :
    (s s' : Session) (call : Call)
    → Step s call s'
    → running s + begun call ≡ running s' + finished call
unfolding begin_listen end_listen stop
balance_kept s s' call (begins _ _ e) = elim (Option-cases s.listener) [
  | inr (asked, h) ↦ absurd (ground (arith, rw (begin_listen, h) at e))
  | inl h ↦
      let same = ok_inj (rw (begin_listen, h) at e) in
      subst (λ (t : Session). running s + 1 ≡ running t + 0) same (rw (h) refl)
]
balance_kept s s' call (finishes _ asked h) = rw (h) refl
balance_kept s s' call (halts _) = ap (λ (n : ℕ). n + 0) (sym (counted-asked_to_stop s.listener))

counted_bound : (o : Option Bool) → counted o ≤ 1
counted_bound none = omega arith
counted_bound (some _) = omega arith

-- In every order of an app's calls, the listeners that have begun are those that have returned and
-- the one that runs, if one does: never two at a time.
pub one_listener :
    (s s' : Session) (calls : List Call)
    → Run s calls s'
    → (running s + total begun calls ≡ running s' + total finished calls) × (running s' ≤ 1)
one_listener s s' [] (done _) = (refl, counted_bound s'.listener)
one_listener s s' (call ∷ calls) (next _ mid _ _ _ step rest) =
    let (later, bound) = one_listener mid s' calls rest in
    (omega (arith, balance_kept s mid call step), bound)
