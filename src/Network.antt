-- ===== src/Network.antt =====
-- internal/p2p/host.go: the identity of a node in the network, the peers that it dials, and how it
-- keeps dialling a configured one. libp2p is a parameter; times are milliseconds.
use open_chat.Prelude.{
  ℕ, zero, suc, ◌+◌, ◌*◌, ◌<◌, ◌≡◌, Bool, true, false, not, ◌&&◌, Option, none, some, List, [], ◌∷◌,
  ◌==◌, ltb, if◌then◌else◌, arith, length, keep,
}
use open_chat.Go.Bytes.{Bytes, eq_bytes}
use open_chat.Client.Primitives.{Primitives}

pub record PeerInfo : Type 0 where
  pub id : Bytes
  pub addrs : List Bytes

-- `none` stands for the panic of ed25519.NewKeyFromSeed at a seed of another length than 32.
unfoldable pub expand_seed : Primitives → Bytes → Option Bytes
expand_seed P seed =
    if length seed == 64
    then some seed
    else if length seed == 32
    then some (P.key_from_seed seed)
    else none

-- The private key of libp2p: crypto.UnmarshalEd25519PrivateKey is an argument.
unfoldable pub identity_from_seed : Primitives → (Bytes → Option Bytes) → Bytes → Option Bytes
identity_from_seed P unmarshal seed = elim (expand_seed P seed) [
  | none ↦ none
  | some key ↦ unmarshal key
]

-- peer.IDFromPrivateKey is an argument too.
unfoldable pub peer_id_from_seed :
    Primitives → (Bytes → Option Bytes) → (Bytes → Option Bytes) → Bytes → Option Bytes
peer_id_from_seed P unmarshal peer_id seed = elim (identity_from_seed P unmarshal seed) [
  | none ↦ none
  | some priv ↦ peer_id priv
]

-- The configured peers whose address can be parsed.
unfoldable pub bootstrap_peers : (Bytes → Option PeerInfo) → List Bytes → List PeerInfo
bootstrap_peers parse [] = []
bootstrap_peers parse (addr ∷ addrs) = elim (parse addr) [
  | none ↦ bootstrap_peers parse addrs
  | some info ↦ info ∷ bootstrap_peers parse addrs
]

-- Of the peers that the DHT has found, those to dial.
unfoldable pub to_dial : Bytes → (Bytes → Bool) → List PeerInfo → List PeerInfo
to_dial own is_connected found =
    keep
      (λ (p : PeerInfo).
        not (eq_bytes p.id own) && not (length p.addrs == 0) && not (is_connected p.id))
      found

abbrev pub dial_initial_backoff : ℕ
dial_initial_backoff = 2000

abbrev pub dial_max_backoff : ℕ
dial_max_backoff = 30000

unfoldable pub next_dial_backoff : ℕ → ℕ
next_dial_backoff backoff =
    let doubled = backoff * 2 in if ltb dial_max_backoff doubled then dial_max_backoff else doubled

-- By the round: whether the context is over at its start and in the wait behind it, whether the peer
-- is connected already, and whether the dial succeeds.
pub record Dials : Type 0 where
  pub is_over : ℕ → Bool
  pub is_connected : ℕ → Bool
  pub succeeds : ℕ → Bool
  pub is_over_after : ℕ → Bool

pub data DialResult : Type 0 where
  joined given_up : DialResult
  -- still at it, with this wait to come
  waiting : ℕ → DialResult

unfoldable pub dial_bootstrap_peer : Dials → ℕ → ℕ → ℕ → DialResult
dial_bootstrap_peer w zero round backoff = waiting backoff
dial_bootstrap_peer w (suc fuel) round backoff =
    let later = dial_bootstrap_peer w fuel (suc round) (next_dial_backoff backoff) in
    if w.is_over round
    then given_up
    else if w.is_connected round
    then joined
    else if w.succeeds round
    then joined
    else if w.is_over_after round
    then given_up
    else later

-- A node joins a configured peer sooner or later, whichever of the two starts first: if a dial would
-- succeed in round `n`, and the context lives until then.
pub dial_bootstrap_peer-joined :
    (w : Dials) (n fuel round backoff : ℕ)
    → n < fuel
    → w.succeeds (round + n) ≡ true
    → ((r : ℕ) → (r < round + n + 1) → w.is_over r ≡ false)
    → ((r : ℕ) → (r < round + n) → w.is_over_after r ≡ false)
    → dial_bootstrap_peer w fuel round backoff ≡ joined
unfolding dial_bootstrap_peer
dial_bootstrap_peer-joined w n zero round backoff lt s alive waits = absurd (omega arith)
dial_bootstrap_peer-joined w zero (suc fuel) round backoff lt s alive waits =
    ground (arith, alive round (omega arith), s)
dial_bootstrap_peer-joined w (suc n) (suc fuel) round backoff lt s alive waits =
    let later =
      dial_bootstrap_peer-joined w n fuel (suc round) (next_dial_backoff backoff) (omega arith)
        (ground (arith, s)) (λ r h. alive r (omega arith)) (λ r h. waits r (omega arith)) in
    ground (arith, alive round (omega arith), waits round (omega arith), later)
