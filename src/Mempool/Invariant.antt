-- ===== src/Mempool/Invariant.antt =====
-- The pool's invariant, and what it costs a transaction to be admitted.
use open_chat.Prelude.{
  ℕ, ◌≤◌, ◌<◌, ◌≡◌, refl, ap, false, none, List, [], ◌∷◌, ◌++◌, arith, length, length-append, All,
  All-append, All-mono, ok,
}
use open_chat.Go.Bytes.{Bytes, eq_bytes_iff, eq_bytes_refl}
use open_chat.Go.Map.{
  Map, lookup, delete, keys, values, IsDistinct, insert-IsDistinct, delete-IsDistinct,
  lookup-insert, values-insert_new, insert_new, length-insert, length-delete-le, All-values-delete,
  All-delete,
}
use open_chat.Crypto.{Crypto}
use open_chat.Blockchain.Transaction
use open_chat.Blockchain.Transaction.{Transaction}
use open_chat.Mempool.{RateLimiter, NonceSource, Mempool, charge, add, remove, max_pool_size}
use open_chat.Mempool.Outcome.{
  pending_nonce, with_tx, turned_away, refused, known, admitted, outcome,
}
use open_chat.Mempool.Order.{same_slot, HasDistinctSlots}

HasDistinctSlots-append :
    (ts : List Transaction) (u : Transaction)
    → HasDistinctSlots ts
    → All (λ (t : Transaction). same_slot t u ≡ false) ts
    → HasDistinctSlots (ts ++ u ∷ [])
HasDistinctSlots-append [] u h k = (tt, tt)
HasDistinctSlots-append (t ∷ ts) u h k =
    (All-append _ ts (u ∷ []) h.0 (k.0, tt), HasDistinctSlots-append ts u h.1 k.1)

HasDistinctSlots-delete :
    (m : Map Transaction) (k : Bytes)
    → HasDistinctSlots (values m)
    → HasDistinctSlots (values (delete m k))
unfolding delete
HasDistinctSlots-delete [] k h = tt
HasDistinctSlots-delete ((j, t) ∷ m) k h =
    ground (arith, HasDistinctSlots-delete m k h.1, All-values-delete _ m k h.0)

module _ (c : Crypto) (R : RateLimiter) where
  pub record IsWellFormed (m : Mempool c R) : Type 0 where
    pub keys_distinct : IsDistinct (keys m.by_hash)
    pub hashed : All (λ (e : Bytes × Transaction). e.0 ≡ Transaction.hash c e.1) m.by_hash
    pub verified : All (λ (t : Transaction). Transaction.verify c t ≡ ok tt) (values m.by_hash)
    pub below_pending :
        All (λ (t : Transaction). t.nonce ≤ pending_nonce m.pending t.from) (values m.by_hash)
    pub slots : HasDistinctSlots (values m.by_hash)
    pub bounded : length m.by_hash ≤ max_pool_size

  with_tx-IsWellFormed :
      (m : Mempool c R) (tx : Transaction)
      → IsWellFormed m
      → Transaction.verify c tx ≡ ok tt
      → length m.by_hash < max_pool_size
      → pending_nonce m.pending tx.from < tx.nonce
      → lookup m.by_hash (Transaction.hash c tx) ≡ none
      → IsWellFormed (with_tx c R m tx)
  with_tx-IsWellFormed m tx w v room fresh new =
      let h = Transaction.hash c tx in
      let vals = values-insert_new m.by_hash h tx new in
      let at = λ (a : Bytes). lookup-insert m.pending tx.from a tx.nonce in
      record {
        keys_distinct = insert-IsDistinct m.by_hash h tx w.keys_distinct;
        hashed = rw (insert_new m.by_hash h tx new) (All-append _ m.by_hash _ w.hashed (refl, tt));
        verified = rw vals (All-append _ (values m.by_hash) _ w.verified (v, tt));
        below_pending = rw vals (
            All-append _ (values m.by_hash) (tx ∷ [])
              (All-mono (values m.by_hash)
                (λ t k. ground (arith, at t.from, eq_bytes_iff tx.from t.from)) w.below_pending)
              (ground (arith, at tx.from, eq_bytes_refl tx.from), tt));
        slots = rw vals (
            HasDistinctSlots-append (values m.by_hash) tx w.slots (
              All-mono (values m.by_hash) (λ t k. ground (arith, eq_bytes_iff t.from tx.from))
                w.below_pending));
        bounded = omega (
          arith,
          length-insert m.by_hash h tx,
          ap length (insert_new m.by_hash h tx new),
          length-append m.by_hash ((h, tx) ∷ []),
        );
      }

  -- Asking a bucket changes nothing that the invariant reads.
  charge-IsWellFormed :
      (m : Mempool c R) (a : Bytes) (l : R.Limiter)
      → IsWellFormed m
      → IsWellFormed (charge c R m a l)
  unfolding charge
  charge-IsWellFormed m a l w = record {
    keys_distinct = w.keys_distinct;
    hashed = w.hashed;
    verified = w.verified;
    below_pending = w.below_pending;
    slots = w.slots;
    bounded = w.bounded;
  }

  -- `Add` keeps the pool well formed, whether it admits the transaction or not.
  pub add-IsWellFormed :
      (m : Mempool c R) (nonces : NonceSource) (now : ℕ) (tx : Transaction)
      → IsWellFormed m
      → IsWellFormed (add c R m nonces now tx).1
  add-IsWellFormed m nonces now tx w = elim (outcome c R m nonces now tx) [
    | turned_away e r ↦ rw r w
    | refused e l r ↦ rw r (charge-IsWellFormed m tx.from l w)
    | known l t k r ↦ rw r (charge-IsWellFormed m tx.from l w)
    | admitted l p r ↦ rw r (
        with_tx-IsWellFormed (charge c R m tx.from l) tx (charge-IsWellFormed m tx.from l w)
          p.verified (unfold charge in p.room) (unfold charge in p.above_pending)
          (unfold charge in p.unknown))
  ]

  -- `Remove` keeps the pool well formed.
  pub remove-IsWellFormed :
      (m : Mempool c R) (txs : List Transaction) → IsWellFormed m → IsWellFormed (remove c R m txs)
  unfolding remove
  remove-IsWellFormed m [] w = w
  remove-IsWellFormed m (tx ∷ txs) w =
      let h = Transaction.hash c tx in
      remove-IsWellFormed (record m { by_hash = delete m.by_hash h }) txs
        (record {
          keys_distinct = delete-IsDistinct m.by_hash h w.keys_distinct;
          hashed = All-delete _ m.by_hash h w.hashed;
          verified = All-values-delete _ m.by_hash h w.verified;
          below_pending = All-values-delete _ m.by_hash h w.below_pending;
          slots = HasDistinctSlots-delete m.by_hash h w.slots;
          bounded = omega (arith, length-delete-le m.by_hash h, w.bounded);
        })
