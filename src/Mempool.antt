-- ===== src/Mempool.antt =====
-- internal/mempool/mempool.go: the pending transactions. The clock is an argument, and the token
-- buckets of golang.org/x/time/rate are a parameter.
pub mod Admission
pub mod Order
pub mod Outcome
pub mod Invariant
use open_chat.Prelude.{
  ℕ, suc, ◌+◌, ◌*◌, ◌≡◌, Bool, true, false, Option, none, some, List, [], ◌∷◌, leb, ltb, ◌==◌,
  if◌then◌else◌, length, take, Result, ok, err,
}
use open_chat.Go.Bytes.{Bytes, eq_bytes, less}
use open_chat.Go.Int64.{is_stale}
use open_chat.Go.Map.{Map, lookup, insert, delete, values}
use open_chat.Crypto.{Crypto}
use open_chat.Blockchain.Transaction
use open_chat.Blockchain.Transaction.{Transaction, TxError}

abbrev pub max_tx_per_second_per_sender : ℕ
max_tx_per_second_per_sender = 5

abbrev pub rate_bucket_burst : ℕ
rate_bucket_burst = max_tx_per_second_per_sender

-- `2 * time.Minute`, in milliseconds and in nanoseconds.
abbrev pub max_clock_skew_ms : ℕ
max_clock_skew_ms = 120000

abbrev pub max_clock_skew : ℕ
max_clock_skew = max_clock_skew_ms * 1000000

abbrev pub max_pool_size : ℕ
max_pool_size = 50000

-- `rate.NewLimiter(limit, burst)` and `Allow`, at the time of the call.
pub record RateLimiter : Type 1 where
  pub Limiter : Type 0
  pub new_limiter : ℕ → ℕ → Limiter
  pub allow : Limiter → ℕ → Bool × Limiter

-- `NonceSource`: an error is `none`.
abbrev pub NonceSource : Type 0
NonceSource = Bytes → Option ℕ

pub data PoolError : Type 0 where
  invalid : TxError → PoolError
  stale full rate_limited nonce_lookup replayed : PoolError

-- A missing key of a Go map reads as the zero of its type.
abbrev pub or_zero : Option ℕ → ℕ
or_zero none = 0
or_zero (some n) = n

-- `sort.Slice` by (From, Nonce).
unfoldable pub before : Transaction → Transaction → Bool
before t u = if eq_bytes t.from u.from then ltb t.nonce u.nonce else less t.from u.from

unfoldable pub insert_sorted : Transaction → List Transaction → List Transaction
insert_sorted t [] = t ∷ []
insert_sorted t (u ∷ us) =
    let rest = insert_sorted t us in if before u t then u ∷ rest else t ∷ u ∷ us

unfoldable pub sort : List Transaction → List Transaction
sort [] = []
sort (t ∷ ts) = insert_sorted t (sort ts)

module _ (c : Crypto) (R : RateLimiter) where
  open R use {Limiter, new_limiter, allow}

  pub record Mempool : Type 0 where
    pub by_hash : Map Transaction
    pub pending : Map ℕ
    pub limiters : Map Limiter

  unfoldable pub new_pool : Mempool
  new_pool = record { by_hash = []; pending = []; limiters = [] }

  -- The sender's bucket, a new one at first sight.
  unfoldable pub limiter_of : Mempool → Bytes → Limiter
  limiter_of m from = elim (lookup m.limiters from) [
    | none ↦ new_limiter max_tx_per_second_per_sender rate_bucket_burst
    | some limiter ↦ limiter
  ]

  -- The larger of the committed nonce and the highest pending one.
  unfoldable pub floor_of : Mempool → Bytes → ℕ → ℕ
  floor_of m from last_committed =
      let highest_pending = or_zero (lookup m.pending from) in
      if ltb last_committed highest_pending then highest_pending else last_committed

  -- From `LastNonce` on, after the bucket was asked.
  unfoldable pub admit : Mempool → NonceSource → Transaction → Result PoolError (Unit {0}) × Mempool
  unfolding floor_of
  admit m nonces tx = elim (nonces tx.from) [
    | none ↦ (err nonce_lookup, m)
    | some last_committed ↦
        if leb tx.nonce (floor_of m tx.from last_committed)
        then (err replayed, m)
        else elim (lookup m.by_hash (Transaction.hash c tx)) [
          | some known ↦ (ok tt, m)
          | none ↦ (
            ok tt,
            record m {
              by_hash = insert m.by_hash (Transaction.hash c tx) tx;
              pending = insert m.pending tx.from tx.nonce;
            },
          )
        ]
  ]

  -- A pool whose sender's bucket has been asked once more.
  unfoldable pub charge : Mempool → Bytes → Limiter → Mempool
  charge m from limiter = record m { limiters = insert m.limiters from limiter }

  unfoldable pub add :
      Mempool → NonceSource → ℕ → Transaction → Result PoolError (Unit {0}) × Mempool
  unfolding limiter_of charge
  add m nonces now tx = elim (Transaction.verify c tx) [
    | err e ↦ (err (invalid e), m)
    | ok _ ↦
        if is_stale now tx.timestamp max_clock_skew
        then (err stale, m)
        else if leb max_pool_size (length m.by_hash)
        then (err full, m)
        else let (allowed, limiter) = allow (limiter_of m tx.from) now in
          let m' = charge m tx.from limiter in
          if allowed then admit m' nonces tx else (err rate_limited, m')
  ]

  unfoldable pub size : Mempool → ℕ
  size m = length m.by_hash

  unfoldable pub propose : Mempool → ℕ → List Transaction
  propose m limit = take limit (sort (values m.by_hash))

  unfoldable pub remove : Mempool → List Transaction → Mempool
  remove m [] = m
  remove m (tx ∷ txs) = remove (record m { by_hash = delete m.by_hash (Transaction.hash c tx) }) txs
