-- ===== src/Blockchain/Chain/Nonces.antt =====
-- Replay protection of the ledger: the stored nonces never fall, and no transaction is committed
-- twice.
use open_chat.Prelude.{
  ℕ, ◌≡◌, ◌≢◌, refl, ap, ◌∙◌, List, [], ◌∷◌, arith, All, Member, ok, err, Result-cases, inl, inr,
}
use open_chat.Go.Bytes.{Bytes}
use open_chat.Crypto.{Crypto}
use open_chat.Blockchain.Transaction
use open_chat.Blockchain.Transaction.{Transaction}
use open_chat.Blockchain.Block.{Block}
use open_chat.Blockchain.Chain.Store.{BlockStore, IsBlockStore, StoreError}
use open_chat.Blockchain.Chain.{
  Chain, store_failed, replayed_nonce, admit, commit_txs, commit_block, take_tx, after_txs,
}
use open_chat.Blockchain.Chain.Txs.{
  AreWords, AtLeast, take_tx-Taken, commit_txs-stop, commit_txs-AtLeast, commit_txs-ok-AtLeast,
  commit_txs_refuses, commit_txs-get_block,
}
use open_chat.Blockchain.Chain.Commit.{
  refused, stopped, unsaved, committed, outcome, stored_txs, with_store, commit_all,
}

abbrev pub HaveWords : List Block → Type 0
HaveWords bs = All (λ (b : Block). AreWords b.transactions) bs

module _ (c : Crypto) (S : BlockStore) {Storable : Block → Type 0}
    (laws : IsBlockStore S Storable) where
  put_block-AtLeast :
      (s : S.State) (b : Block) (s' : S.State) (a : Bytes) (n : ℕ)
      → S.put_block s b ≡ ok s'
      → AtLeast c S laws s a n
      → AtLeast c S laws s' a n
  put_block-AtLeast s b s' a n u (m, e, k) =
      (m, ground (arith, laws.last_nonce-put_block s b a u), k)

  -- No call of `CommitBlock`, failing or not, lowers the stored nonce of an address.
  pub commit_block-AtLeast :
      (ch : Chain c S) (b : Block) (q : ℕ) (vs : List Bytes) (a : Bytes) (n : ℕ)
      → AreWords b.transactions
      → AtLeast c S laws ch.store a n
      → AtLeast c S laws (commit_block c S ch b q vs).1.store a n
  commit_block-AtLeast ch b q vs a n w h =
      let kept = commit_txs-AtLeast c S laws ch.store b.transactions a n w h in
      elim (outcome c S ch b q vs) [
        | refused e p r ↦ rw r h
        | stopped e p t r ↦ rw r kept
        | unsaved e p t u r ↦ rw r kept
        | committed s p t u r ↦ rw r (put_block-AtLeast (stored_txs c S ch b) b s a n u kept)
      ]

  pub commit_all-AtLeast :
      (ch : Chain c S) (q : ℕ) (vs : List Bytes) (bs : List Block) (a : Bytes) (n : ℕ)
      → HaveWords bs
      → AtLeast c S laws ch.store a n
      → AtLeast c S laws (commit_all c S ch q vs bs).store a n
  commit_all-AtLeast ch q vs [] a n w h = h
  commit_all-AtLeast ch q vs (b ∷ bs) a n w h =
      commit_all-AtLeast (commit_block c S ch b q vs).1 q vs bs a n w.1
        (commit_block-AtLeast ch b q vs a n w.0 h)

  commit_block-ok-AtLeast :
      (ch : Chain c S) (b : Block) (q : ℕ) (vs : List Bytes) (tx : Transaction)
      → AreWords b.transactions
      → (commit_block c S ch b q vs).0 ≡ ok tt
      → Member tx b.transactions
      → AtLeast c S laws (commit_block c S ch b q vs).1.store tx.from tx.nonce
  commit_block-ok-AtLeast ch b q vs tx w good m = elim (outcome c S ch b q vs) [
    | refused e p r ↦ absurd (ground arith)
    | stopped e p t r ↦ absurd (ground arith)
    | unsaved e p t u r ↦ absurd (ground arith)
    | committed s p t u r ↦ rw r (
        put_block-AtLeast (stored_txs c S ch b) b s tx.from tx.nonce u
          (commit_txs-ok-AtLeast c S laws ch.store b.transactions tx w t m))
  ]

  commit_block_refuses :
      (ch : Chain c S) (b : Block) (q : ℕ) (vs : List Bytes) (tx : Transaction)
      → AreWords b.transactions
      → AtLeast c S laws ch.store tx.from tx.nonce
      → Member tx b.transactions
      → (commit_block c S ch b q vs).0 ≢ ok tt
  commit_block_refuses ch b q vs tx w h m good = elim (outcome c S ch b q vs) [
    | refused e p r ↦ absurd (ground arith)
    | stopped e p t r ↦ absurd (ground arith)
    | unsaved e p t u r ↦ absurd (ground arith)
    | committed s p t u r ↦ commit_txs_refuses c S laws ch.store b.transactions tx w h m t
  ]

  -- Over a store that meets its laws, and with nonces of 64 bits, a transaction of a block that was
  -- committed is in no block that is committed later, whatever calls of `CommitBlock` come in
  -- between.
  pub never_committed_twice :
      (ch : Chain c S) (b : Block) (q : ℕ) (vs : List Bytes) (tx : Transaction) (bs : List Block)
      (b' : Block)
      → AreWords b.transactions
      → HaveWords bs
      → AreWords b'.transactions
      → (commit_block c S ch b q vs).0 ≡ ok tt
      → Member tx b.transactions
      → Member tx b'.transactions
      → (commit_block c S (commit_all c S (commit_block c S ch b q vs).1 q vs bs) b' q vs).0 ≢ ok tt
  never_committed_twice ch b q vs tx bs b' w ws w' good m m' =
      let ch' = (commit_block c S ch b q vs).1 in
      commit_block_refuses (commit_all c S ch' q vs bs) b' q vs tx w'
        (commit_all-AtLeast ch' q vs bs tx.from tx.nonce ws
          (commit_block-ok-AtLeast ch b q vs tx w good m))
        m'

  take_tx_replayed :
      (s : S.State) (tx : Transaction)
      → Transaction.verify c tx ≡ ok tt
      → AtLeast c S laws s tx.from tx.nonce
      → take_tx c S s tx ≡ err replayed_nonce
  unfolding take_tx
  take_tx_replayed s tx v (m, e, k) = ground arith

  commit_block_replayed :
      (ch : Chain c S) (b : Block) (q : ℕ) (vs : List Bytes) (tx : Transaction)
      (txs : List Transaction)
      → b.transactions ≡ tx ∷ txs
      → admit c S ch b q vs ≡ ok tt
      → take_tx c S ch.store tx ≡ err replayed_nonce
      → (commit_block c S ch b q vs).0 ≡ err replayed_nonce
  unfolding commit_block after_txs
  commit_block_replayed ch b q vs tx txs split a p =
      let loop : commit_txs c S ch.store b.transactions ≡ (err replayed_nonce, ch.store) =
        ap (commit_txs c S ch.store) split
        ∙ commit_txs-stop c S laws ch.store tx txs replayed_nonce p in
      ground (arith, loop)

  admit-with_store :
      (ch : Chain c S) (s : S.State) (b : Block) (q : ℕ) (vs : List Bytes)
      → S.get_block s ch.tip ≡ S.get_block ch.store ch.tip
      → admit c S (with_store c S ch s) b q vs ≡ admit c S ch b q vs
  unfolding admit
  admit-with_store ch s b q vs e = rw (e, admit)

  first_verified :
      (s : S.State) (tx : Transaction) (txs : List Transaction)
      → (commit_txs c S s (tx ∷ txs)).0 ≡ ok tt
      → Transaction.verify c tx ≡ ok tt
  first_verified s tx txs t = elim (Result-cases (take_tx c S s tx)) [
    | inl (e, p) ↦ absurd (ground (arith, commit_txs-stop c S laws s tx txs e p))
    | inr (s', p) ↦ (take_tx-Taken c S laws s tx s' p).verified
  ]

  -- Where, for a block that has transactions, the loop of `CommitBlock` ends well and `PutBlock`
  -- then fails, the nonces stay written:
  -- the block was not stored, and the next try with it is refused as a replay.
  pub failed_put_is_final :
      (ch : Chain c S) (b : Block) (q : ℕ) (vs : List Bytes) (tx : Transaction)
      (txs : List Transaction) {e : StoreError}
      → b.transactions ≡ tx ∷ txs
      → AreWords b.transactions
      → admit c S ch b q vs ≡ ok tt
      → (commit_txs c S ch.store b.transactions).0 ≡ ok tt
      → S.put_block (stored_txs c S ch b) b ≡ err e
      → let ch' = (commit_block c S ch b q vs).1 in
        ((commit_block c S ch b q vs).0 ≡ err store_failed)
        × ((commit_block c S ch' b q vs).0 ≡ err replayed_nonce)
  failed_put_is_final ch b q vs tx txs split w a t u = elim (outcome c S ch b q vs) [
    | refused e p r ↦ absurd (cc)
    | stopped e p t' r ↦ absurd (cc)
    | committed s p t' u' r ↦ absurd (cc)
    | unsaved e p t' u' r ↦
        let s = stored_txs c S ch b in
        let ok_first : (commit_txs c S ch.store (tx ∷ txs)).0 ≡ ok tt = rw split at t in
        let verified = first_verified ch.store tx txs ok_first in
        let high =
          commit_txs-ok-AtLeast c S laws ch.store b.transactions tx w t (rw split (inl refl)) in
        rw r (
          refl,
          commit_block_replayed (with_store c S ch s) b q vs tx txs split
              (admit-with_store ch s b q vs
                  (commit_txs-get_block c S laws ch.store b.transactions ch.tip)
                ∙ a)
              (take_tx_replayed s tx verified high),
        )
  ]
