-- ===== src/Mempool/Admission.antt =====
-- What the pool admits, and that it admits no transaction twice.
use open_chat.Prelude.{ℕ, ◌≤◌, ◌≡◌, ◌≢◌, refl, List, [], ◌∷◌, arith, All, Member, ok, inl, inr}
use open_chat.Go.Bytes.{Bytes, eq_bytes_iff}
use open_chat.Go.Map.{Map, delete, values, lookup-insert}
use open_chat.Crypto.{Crypto}
use open_chat.Blockchain.Transaction
use open_chat.Blockchain.Transaction.{Transaction}
use open_chat.Mempool.{RateLimiter, NonceSource, Mempool, charge, add, remove, new_pool}
use open_chat.Mempool.Outcome.{pending_nonce, turned_away, refused, known, admitted, outcome}
use open_chat.Mempool.Invariant.{IsWellFormed, add-IsWellFormed, remove-IsWellFormed}

-- The calls that change the pool.
pub data Call : Type 0 where
  adds : NonceSource → ℕ → Transaction → Call
  removes : List Transaction → Call

module _ (c : Crypto) (R : RateLimiter) where
  abbrev pub step : Mempool c R → Call → Mempool c R
  step m (adds nonces now tx) = (add c R m nonces now tx).1
  step m (removes txs) = remove c R m txs

  abbrev pub run : Mempool c R → List Call → Mempool c R
  run m [] = m
  run m (k ∷ ks) = run (step m k) ks

  step-IsWellFormed :
      (m : Mempool c R) (k : Call) → IsWellFormed c R m → IsWellFormed c R (step m k)
  step-IsWellFormed m (adds nonces now tx) w = add-IsWellFormed c R m nonces now tx w
  step-IsWellFormed m (removes txs) w = remove-IsWellFormed c R m txs w

  run-IsWellFormed :
      (m : Mempool c R) (ks : List Call) → IsWellFormed c R m → IsWellFormed c R (run m ks)
  run-IsWellFormed m [] w = w
  run-IsWellFormed m (k ∷ ks) w = run-IsWellFormed (step m k) ks (step-IsWellFormed m k w)

  new_pool-IsWellFormed : IsWellFormed c R (new_pool c R)
  unfolding new_pool
  new_pool-IsWellFormed = record {
    keys_distinct = tt;
    hashed = tt;
    verified = tt;
    below_pending = tt;
    slots = tt;
    bounded = omega arith;
  }

  -- After any calls from an empty pool: every pending transaction stands under its hash, has a
  -- valid signature and a nonce not above its sender's highest pending one, no two share sender and
  -- nonce, no hash stands twice, and there are at most `max_pool_size` of them.
  pub reachable-IsWellFormed : (ks : List Call) → IsWellFormed c R (run (new_pool c R) ks)
  reachable-IsWellFormed ks = run-IsWellFormed (new_pool c R) ks new_pool-IsWellFormed

  remove-pending :
      (m : Mempool c R) (txs : List Transaction) → (remove c R m txs).pending ≡ m.pending
  unfolding remove
  remove-pending m [] = refl
  remove-pending m (tx ∷ txs) =
      remove-pending (record m { by_hash = delete m.by_hash (Transaction.hash c tx) }) txs

  add-pending :
      (m : Mempool c R) (nonces : NonceSource) (now : ℕ) (tx : Transaction) (a : Bytes)
      → pending_nonce m.pending a ≤ pending_nonce (add c R m nonces now tx).1.pending a
  unfolding charge
  add-pending m nonces now tx a = elim (outcome c R m nonces now tx) [
    | turned_away e r ↦ rw r (omega arith)
    | refused e l r ↦ rw r (omega arith)
    | known l t k r ↦ rw r (omega arith)
    | admitted l p r ↦ rw r (
        ground (
          arith,
          lookup-insert m.pending tx.from a tx.nonce,
          eq_bytes_iff tx.from a,
          p.above_pending,
        ))
  ]

  -- No call lowers the highest pending nonce of an address.
  pub step-pending :
      (m : Mempool c R) (k : Call) (a : Bytes)
      → pending_nonce m.pending a ≤ pending_nonce (step m k).pending a
  step-pending m (removes txs) a = rw (remove-pending m txs) (omega arith)
  step-pending m (adds nonces now tx) a = add-pending m nonces now tx a

  run-pending :
      (m : Mempool c R) (ks : List Call) (a : Bytes)
      → pending_nonce m.pending a ≤ pending_nonce (run m ks).pending a
  run-pending m [] a = omega arith
  run-pending m (k ∷ ks) a = omega (arith, step-pending m k a, run-pending (step m k) ks a)

  add_refuses :
      (m : Mempool c R) (nonces : NonceSource) (now : ℕ) (tx : Transaction)
      → tx.nonce ≤ pending_nonce m.pending tx.from
      → (add c R m nonces now tx).0 ≢ ok tt
  add_refuses m nonces now tx h good = elim (outcome c R m nonces now tx) [
    | turned_away e r ↦ absurd (ground arith)
    | refused e l r ↦ absurd (ground arith)
    | known l t k r ↦ absurd (omega arith)
    | admitted l p r ↦ absurd (omega (arith, p.above_pending))
  ]

  Member-below :
      (p : Map ℕ) (ts : List Transaction) (tx : Transaction)
      → Member tx ts
      → All (λ (t : Transaction). t.nonce ≤ pending_nonce p t.from) ts
      → tx.nonce ≤ pending_nonce p tx.from
  Member-below p [] tx m h = absurd m
  Member-below p (t ∷ ts) tx (inl e) h = rw (← e) h.0
  Member-below p (t ∷ ts) tx (inr m) h = Member-below p ts tx m h.1

  -- A transaction that is pending in a well-formed pool is never accepted again, not then and not
  -- after any further calls, removals included.
  pub pending_is_refused :
      (m : Mempool c R) (ks : List Call) (nonces : NonceSource) (now : ℕ) (tx : Transaction)
      → IsWellFormed c R m
      → Member tx (values m.by_hash)
      → (add c R (run m ks) nonces now tx).0 ≢ ok tt
  pending_is_refused m ks nonces now tx w member = add_refuses (run m ks) nonces now tx (
      omega (
        arith,
        Member-below m.pending (values m.by_hash) tx member w.below_pending,
        run-pending m ks tx.from,
      ))
