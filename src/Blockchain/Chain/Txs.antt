-- ===== src/Blockchain/Chain/Txs.antt =====
-- The transaction loop of `CommitBlock`: what it writes, and what it refuses.
use open_chat.Prelude.{
  ℕ, ◌≤◌, ◌<◌, ◌≡◌, refl, sym, subst, List, [], ◌∷◌, arith, All, Member, inl, inr, ok, err,
  Result-cases, Bool-cases, ◌≢◌,
}
use open_chat.Go.Bytes.{Bytes, eq_bytes, eq_bytes_iff, eq_bytes_refl}
use open_chat.Go.Int64.{IsWord}
use open_chat.Crypto.{Crypto}
use open_chat.Blockchain.Transaction
use open_chat.Blockchain.Transaction.{Transaction}
use open_chat.Blockchain.Block.{Block}
use open_chat.Blockchain.Chain.Store.{BlockStore, IsBlockStore}
use open_chat.Blockchain.Chain.{ChainError, take_tx, commit_txs}

abbrev pub AreWords : List Transaction → Type 0
AreWords txs = All (λ (tx : Transaction). IsWord tx.nonce) txs

module _ (c : Crypto) (S : BlockStore) {Storable : Block → Type 0}
    (laws : IsBlockStore S Storable) where
  -- What a transaction passed that the loop took.
  pub record Taken (s : S.State) (tx : Transaction) (s' : S.State) : Type 0 where
    pub verified : Transaction.verify c tx ≡ ok tt
    pub last : ℕ
    pub stored : S.last_nonce s tx.from ≡ ok last
    pub above : last < tx.nonce
    pub written : S.set_last_nonce s tx.from tx.nonce ≡ ok s'

  pub take_tx-Taken :
      (s : S.State) (tx : Transaction) (s' : S.State) → take_tx c S s tx ≡ ok s' → Taken s tx s'
  unfolding take_tx
  take_tx-Taken s tx s' h = elim (Result-cases (S.last_nonce s tx.from)) [
    | inl (e, p) ↦ absurd (ground arith)
    | inr (last, p) ↦ record {
      verified = ground arith;
      last = last;
      stored = p;
      above = ground arith;
      written = ground arith;
    }
  ]

  pub commit_txs-take :
      (s : S.State) (tx : Transaction) (txs : List Transaction) (s' : S.State)
      → take_tx c S s tx ≡ ok s'
      → commit_txs c S s (tx ∷ txs) ≡ commit_txs c S s' txs
  unfolding commit_txs
  commit_txs-take s tx txs s' h = ground arith

  pub commit_txs-stop :
      (s : S.State) (tx : Transaction) (txs : List Transaction) (e : ChainError)
      → take_tx c S s tx ≡ err e
      → commit_txs c S s (tx ∷ txs) ≡ (err e, s)
  unfolding commit_txs
  commit_txs-stop s tx txs e h = ground arith

  pub commit_txs-get_block :
      (s : S.State) (txs : List Transaction) (h : ℕ)
      → S.get_block (commit_txs c S s txs).1 h ≡ S.get_block s h
  unfolding commit_txs
  commit_txs-get_block s [] h = refl
  commit_txs-get_block s (tx ∷ txs) h = elim (Result-cases (take_tx c S s tx)) [
    | inl (e, p) ↦ ground arith
    | inr (s', p) ↦
        let t = take_tx-Taken s tx s' p in
        ground (
          arith,
          commit_txs-get_block s' txs h,
          laws.get_block-set_last_nonce s tx.from tx.nonce h t.written,
        )
  ]

  -- `n` or more is stored for the address.
  abbrev pub AtLeast : S.State → Bytes → ℕ → Type 0
  AtLeast s a n = (m : ℕ) × (S.last_nonce s a ≡ ok m) × (n ≤ m)

  pub take_tx-AtLeast :
      (s : S.State) (tx : Transaction) (s' : S.State) (a : Bytes) (n : ℕ)
      → IsWord tx.nonce
      → take_tx c S s tx ≡ ok s'
      → AtLeast s a n
      → AtLeast s' a n
  take_tx-AtLeast s tx s' a n w h (m, e, k) =
      let t = take_tx-Taken s tx s' h in
      let new = laws.last_nonce-set_last_nonce s tx.from tx.nonce a w t.written in
      elim (Bool-cases (eq_bytes tx.from a)) [
        | inl same ↦
            (tx.nonce, ground arith, ground (arith, eq_bytes_iff tx.from a, t.above, t.stored))
        | inr other ↦ (m, ground arith, k)
      ]

  -- No stored nonce falls, whether the loop ends or stops.
  pub commit_txs-AtLeast :
      (s : S.State) (txs : List Transaction) (a : Bytes) (n : ℕ)
      → AreWords txs
      → AtLeast s a n
      → AtLeast (commit_txs c S s txs).1 a n
  commit_txs-AtLeast s [] a n w h = unfold commit_txs in h
  commit_txs-AtLeast s (tx ∷ txs) a n w h = elim (Result-cases (take_tx c S s tx)) [
    | inl (e, p) ↦ rw (commit_txs-stop s tx txs e p) h
    | inr (s', p) ↦
        rw (commit_txs-take s tx txs s' p)
          (commit_txs-AtLeast s' txs a n w.1 (take_tx-AtLeast s tx s' a n w.0 p h))
  ]

  pub take_tx-AtLeast_self :
      (s : S.State) (tx : Transaction) (s' : S.State)
      → IsWord tx.nonce
      → take_tx c S s tx ≡ ok s'
      → AtLeast s' tx.from tx.nonce
  take_tx-AtLeast_self s tx s' w h =
      let t = take_tx-Taken s tx s' h in
      let new = laws.last_nonce-set_last_nonce s tx.from tx.nonce tx.from w t.written in
      (tx.nonce, ground (arith, eq_bytes_refl tx.from), omega arith)

  -- When the loop ends well, the nonce of each of its transactions is stored, or a larger one.
  pub commit_txs-ok-AtLeast :
      (s : S.State) (txs : List Transaction) (tx : Transaction)
      → AreWords txs
      → (commit_txs c S s txs).0 ≡ ok tt
      → Member tx txs
      → AtLeast (commit_txs c S s txs).1 tx.from tx.nonce
  commit_txs-ok-AtLeast s [] tx w h m = absurd m
  commit_txs-ok-AtLeast s (x ∷ txs) tx w h m = elim (Result-cases (take_tx c S s x)) [
    | inl (e, p) ↦ absurd (ground (arith, commit_txs-stop s x txs e p))
    | inr (s', p) ↦
        let step = commit_txs-take s x txs s' p in
        rw step (elim m [
          | inl e ↦ commit_txs-AtLeast s' txs tx.from tx.nonce w.1 (
              subst (λ (y : Transaction). AtLeast s' y.from y.nonce) e
                (take_tx-AtLeast_self s x s' w.0 p))
          | inr later ↦ commit_txs-ok-AtLeast s' txs tx w.1 (cc step) later
        ])
  ]

  -- A transaction whose nonce is not above the stored one is never taken.
  pub commit_txs_refuses :
      (s : S.State) (txs : List Transaction) (tx : Transaction)
      → AreWords txs
      → AtLeast s tx.from tx.nonce
      → Member tx txs
      → (commit_txs c S s txs).0 ≢ ok tt
  commit_txs_refuses s [] tx w h m good = absurd m
  commit_txs_refuses s (x ∷ txs) tx w h m good = elim (Result-cases (take_tx c S s x)) [
    | inl (e, p) ↦ absurd (ground (arith, commit_txs-stop s x txs e p))
    | inr (s', p) ↦ elim m [
      | inl e ↦
          let t = take_tx-Taken s x s' p in
          let old : AtLeast s x.from x.nonce =
            subst (λ (y : Transaction). AtLeast s y.from y.nonce) (sym e) h in
          ground (arith, t.stored, t.above, old)
      | inr later ↦
          commit_txs_refuses s' txs tx w.1 (take_tx-AtLeast s x s' tx.from tx.nonce w.0 p h) later
            (cc (commit_txs-take s x txs s' p))
    ]
  ]
