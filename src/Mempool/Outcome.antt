-- ===== src/Mempool/Outcome.antt =====
-- `Add` by its outcomes.
use open_chat.Prelude.{
  ℕ, ◌<◌, ◌≡◌, true, false, none, some, arith, leb, length, Bool-cases, Option-cases, Result-cases,
  ok, err, inl, inr,
}
use open_chat.Go.Bytes.{Bytes}
use open_chat.Go.Int64.{is_stale}
use open_chat.Go.Map.{Map, lookup, insert}
use open_chat.Crypto.{Crypto}
use open_chat.Blockchain.Transaction
use open_chat.Blockchain.Transaction.{Transaction}
use open_chat.Mempool.{
  RateLimiter, NonceSource, Mempool, PoolError, invalid, stale, full, rate_limited, nonce_lookup,
  replayed, or_zero, floor_of, limiter_of, admit, charge, add, max_pool_size, max_clock_skew,
}

-- The highest nonce that is pending for an address.
abbrev pub pending_nonce : Map ℕ → Bytes → ℕ
pending_nonce p a = or_zero (lookup p a)

module _ (c : Crypto) (R : RateLimiter) where
  -- The pool with one more transaction.
  abbrev pub with_tx : Mempool c R → Transaction → Mempool c R
  with_tx m tx = record m {
    by_hash = insert m.by_hash (Transaction.hash c tx) tx;
    pending = insert m.pending tx.from tx.nonce;
  }

module _ (c : Crypto) (R : RateLimiter) (m : Mempool c R) (nonces : NonceSource) (now : ℕ)
    (tx : Transaction) where
  -- What an admitted transaction has passed.
  pub record Passed : Type 0 where
    pub verified : Transaction.verify c tx ≡ ok tt
    pub fresh : is_stale now tx.timestamp max_clock_skew ≡ false
    pub room : length m.by_hash < max_pool_size
    pub allowed : (R.allow (limiter_of c R m tx.from) now).0 ≡ true
    pub last_committed : ℕ
    pub looked_up : nonces tx.from ≡ some last_committed
    pub above_committed : last_committed < tx.nonce
    pub above_pending : pending_nonce m.pending tx.from < tx.nonce
    pub unknown : lookup m.by_hash (Transaction.hash c tx) ≡ none

  pub data Outcome : Type 0 where
    turned_away : (e : PoolError) → add c R m nonces now tx ≡ (err e, m) → Outcome
    refused :
        (e : PoolError) (l : R.Limiter)
        → add c R m nonces now tx ≡ (err e, charge c R m tx.from l)
        → Outcome
    known :
        (l : R.Limiter) (t : Transaction)
        → pending_nonce m.pending tx.from < tx.nonce
        → add c R m nonces now tx ≡ (ok tt, charge c R m tx.from l)
        → Outcome
    admitted :
        (l : R.Limiter)
        → Passed
        → add c R m nonces now tx ≡ (ok tt, with_tx c R (charge c R m tx.from l) tx)
        → Outcome

  limit : R.Limiter
  limit = (R.allow (limiter_of c R m tx.from) now).1

  outcome_admit :
      Transaction.verify c tx ≡ ok tt
      → is_stale now tx.timestamp max_clock_skew ≡ false
      → length m.by_hash < max_pool_size
      → (R.allow (limiter_of c R m tx.from) now).0 ≡ true
      → add c R m nonces now tx ≡ admit c R (charge c R m tx.from limit) nonces tx
      → Outcome
  unfolding admit charge floor_of limit
  outcome_admit v f room a r = elim (Option-cases (nonces tx.from)) [
    | inl e ↦ refused nonce_lookup limit (ground arith)
    | inr (last, e) ↦ elim (Bool-cases (leb tx.nonce (floor_of c R m tx.from last))) [
      | inl low ↦ refused replayed limit (ground arith)
      | inr high ↦ elim (Option-cases (lookup m.by_hash (Transaction.hash c tx))) [
        | inr (t, e') ↦ known limit t (ground arith) (ground arith)
        | inl new ↦
            admitted limit
              (record {
                verified = v;
                fresh = f;
                room = room;
                allowed = a;
                last_committed = last;
                looked_up = e;
                above_committed = ground arith;
                above_pending = ground arith;
                unknown = new;
              })
              (ground arith)
      ]
    ]
  ]

  pub outcome : Outcome
  unfolding add charge limit
  outcome = elim (Result-cases (Transaction.verify c tx)) [
    | inl (e, v) ↦ turned_away (invalid e) (ground arith)
    | inr (_, v) ↦ elim (Bool-cases (is_stale now tx.timestamp max_clock_skew)) [
      | inl f ↦ turned_away stale (ground arith)
      | inr f ↦ elim (Bool-cases (leb max_pool_size (length m.by_hash))) [
        | inl r ↦ turned_away full (ground arith)
        | inr r ↦ elim (Bool-cases (R.allow (limiter_of c R m tx.from) now).0) [
          | inl a ↦ outcome_admit (ground arith) f (ground arith) a (ground arith)
          | inr a ↦ refused rate_limited limit (ground arith)
        ]
      ]
    ]
  ]
