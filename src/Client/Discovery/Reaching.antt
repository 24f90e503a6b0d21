-- ===== src/Client/Discovery/Reaching.antt =====
-- What the rounds of `Connect` and `Failover` come to.
use open_chat.Prelude.{
  sym, subst, ℕ, zero, suc, ◌+◌, ◌<◌, ◌≡◌, refl, ap, ◌∙◌, true, false, Option, none, some, List, [],
  ◌∷◌, arith, if◌then◌else◌, ◌≢◌, ◌↔◌, ◌||◌, Bool, Option-cases, Bool-cases, inl, inr,
}
use open_chat.Go.Bytes.{Bytes, eq_bytes_iff}
use open_chat.Go.Map.{contains}
use open_chat.Client.Discovery.Candidates.{contains-candidates}
use open_chat.Client.Discovery.{
  Discovery, World, Outcome, connected, cancelled, dialling, candidates, first_reachable,
  refresh_cache, next_backoff, rounds, failover, initial_backoff,
}

-- The dial that ends a round is of a candidate that answers, and the first such.
pub first_reachable-some :
    (is_reachable : Bytes → Bool) (xs : List Bytes) (a : Bytes)
    → contains xs a ≡ true
    → is_reachable a ≡ true
    → (b : Bytes) × (first_reachable is_reachable xs ≡ some b)
unfolding first_reachable contains
first_reachable-some is_reachable [] a m r = cc
first_reachable-some is_reachable (x ∷ xs) a m r = elim (Bool-cases (is_reachable x)) [
  | inl e ↦ (x, ground (arith, e))
  | inr e ↦
      let (b, found) =
        first_reachable-some is_reachable xs a (ground (arith, e, eq_bytes_iff x a)) r in
      (b, ground (arith, e, found))
]

pub first_reachable-member :
    (is_reachable : Bytes → Bool) (xs : List Bytes) (b : Bytes)
    → first_reachable is_reachable xs ≡ some b
    → (contains xs b ≡ true) × (is_reachable b ≡ true)
unfolding first_reachable contains
first_reachable-member is_reachable [] b e = cc
first_reachable-member is_reachable (x ∷ xs) b e = elim (Bool-cases (is_reachable x)) [
  | inl h ↦ ground (arith, h, e, eq_bytes_iff x b)
  | inr h ↦ ground (arith, h, e, first_reachable-member is_reachable xs b)
]

-- The shuffle of every round keeps the members of the cache.
abbrev pub IsShuffling : World → Type 0
IsShuffling world =
    (r : ℕ) (l : List Bytes) (a : Bytes) → contains (world.shuffle r l) a ≡ contains l a

-- A gateway that a round may dial.
abbrev pub IsCandidate : Discovery → Bytes → Bytes → Type 0
IsCandidate d exclude a =
    ((contains d.cache a || contains d.bootstrap a) ≡ true) × (a ≢ []) × (a ≢ exclude)

candidates_iff :
    (world : World) (round : ℕ) (d : Discovery) (exclude a : Bytes)
    → IsShuffling world
    → (contains (candidates (world.shuffle round) d exclude) a ≡ true) ↔ IsCandidate d exclude a
candidates_iff world round d exclude a shuffling = ground (
  arith,
  eq_bytes_iff a [],
  eq_bytes_iff a exclude,
  (contains-candidates (world.shuffle round) d exclude (shuffling round d.cache)).1 a,
)

-- A connection that a round makes goes to a candidate.
abbrev pub IsConnection : Discovery → Bytes → Outcome → Type 0
IsConnection d exclude (connected d') =
    (d'.current ≡ some d'.current_addr)
    × IsCandidate d exclude d'.current_addr
    × (d'.bootstrap ≡ d.bootstrap)
IsConnection d exclude (cancelled d') = d' ≡ d
IsConnection d exclude (dialling d' wait) = d' ≡ d

refresh_cache-keeps :
    (listed : Bytes → Option (List Bytes)) (d : Discovery) (addr : Bytes)
    → let now = refresh_cache listed (record d { current = some addr; current_addr = addr }) in
      (now.current ≡ some addr) × (now.current_addr ≡ addr) × (now.bootstrap ≡ d.bootstrap)
unfolding refresh_cache
refresh_cache-keeps listed d addr = elim (Option-cases (listed addr)) [
  | inl f ↦ rw (refresh_cache, f) (refl, refl, refl)
  | inr (addrs, f) ↦ rw (refresh_cache, f) (refl, refl, refl)
]

-- The first candidate that answers in a round.
abbrev pub answering : World → Bytes → ℕ → Discovery → Option Bytes
answering world exclude round d =
    first_reachable (world.is_reachable round) (candidates (world.shuffle round) d exclude)

rounds_dial :
    (world : World) (exclude : Bytes) (fuel round backoff : ℕ) (d : Discovery) (addr : Bytes)
    → answering world exclude round d ≡ some addr
    → rounds world exclude (suc fuel) round backoff d
      ≡ connected
          (refresh_cache world.listed (record d { current = some addr; current_addr = addr }))
unfolding rounds
rounds_dial world exclude fuel round backoff d addr e = rw (rounds, e) refl

pub rounds_wait :
    (world : World) (exclude : Bytes) (fuel round backoff : ℕ) (d : Discovery)
    → answering world exclude round d ≡ none
    → rounds world exclude (suc fuel) round backoff d ≡ (
        if world.is_done round
        then cancelled d
        else rounds world exclude fuel (suc round) (next_backoff backoff) d)
unfolding rounds
rounds_wait world exclude fuel round backoff d e = rw (rounds, e) refl

-- Whatever the rounds end in: a connection goes to a candidate.
pub rounds-IsConnection :
    (world : World) (exclude : Bytes) (fuel round backoff : ℕ) (d : Discovery)
    → IsShuffling world
    → IsConnection d exclude (rounds world exclude fuel round backoff d)
unfolding rounds
rounds-IsConnection world exclude zero round backoff d s = refl
rounds-IsConnection world exclude (suc fuel) round backoff d s =
    elim (Option-cases (answering world exclude round d)) [
      | inl e ↦
          rw (rounds_wait world exclude fuel round backoff d e)
            (elim (Bool-cases (world.is_done round)) [
              | inl h ↦ rw (h) refl
              | inr h ↦
                  rw (h)
                    (rounds-IsConnection world exclude fuel (suc round) (next_backoff backoff) d s)
            ])
      | inr (addr, e) ↦
          let (member, _) =
            first_reachable-member (world.is_reachable round)
              (candidates (world.shuffle round) d exclude) addr e in
          let (there, where_to, boot) = refresh_cache-keeps world.listed d addr in
          let candidate = (candidates_iff world round d exclude addr s).0 member in
          rw (rounds_dial world exclude fuel round backoff d addr e) (
            there ∙ ap some (sym where_to),
            subst (IsCandidate d exclude) (sym where_to) candidate,
            boot,
          )
    ]

-- Sooner or later: a candidate that answers in a round that the context lives to see ends in a
-- connection.
pub rounds-reach :
    (world : World) (exclude : Bytes) (m fuel round backoff : ℕ) (d : Discovery) (a : Bytes)
    → IsShuffling world
    → m < fuel
    → IsCandidate d exclude a
    → world.is_reachable (round + m) a ≡ true
    → ((r : ℕ) → r < round + m → world.is_done r ≡ false)
    → (d' : Discovery) × (rounds world exclude fuel round backoff d ≡ connected d')
rounds-reach world exclude m zero round backoff d a s lt c reach alive = absurd (omega arith)
rounds-reach world exclude zero (suc fuel) round backoff d a s lt c reach alive =
    let (b, e) =
      first_reachable-some (world.is_reachable round) (candidates (world.shuffle round) d exclude) a
        ((candidates_iff world round d exclude a s).1 c) (ground (arith, reach)) in
    (_, rounds_dial world exclude fuel round backoff d b e)
rounds-reach world exclude (suc m) (suc fuel) round backoff d a s lt c reach alive =
    elim (Option-cases (answering world exclude round d)) [
      | inr (b, e) ↦ (_, rounds_dial world exclude fuel round backoff d b e)
      | inl e ↦
          let (d', later) =
            rounds-reach world exclude m fuel (suc round) (next_backoff backoff) d a s (omega arith)
              c (ground (arith, reach)) (λ r lt_r. alive r (omega arith)) in
          (
            d',
            rounds_wait world exclude fuel round backoff d e
                ∙ ground (arith, alive round (omega arith), later),
          )
    ]

-- A failover that knows no gateway but the one that failed never ends in a connection, however long
-- it runs.
pub failover_stuck :
    (world : World) (fuel : ℕ) (d d' : Discovery)
    → IsShuffling world
    → ((a : Bytes) → ¬ IsCandidate d d.current_addr a)
    → failover world fuel d ≢ connected d'
unfolding failover
failover_stuck world fuel d d' s none_left e =
    let outcome =
      rounds-IsConnection world d.current_addr fuel 0 initial_backoff (record d { current = none })
        s in
    none_left d'.current_addr
      (subst (IsConnection (record d { current = none }) d.current_addr) e outcome).1
