-- ===== src/Blockchain/Chain/Commit.antt =====
-- `CommitBlock` by its outcomes.
use open_chat.Prelude.{
  ℕ, ◌+◌, ◌%◌, ◌≡◌, refl, true, some, List, [], ◌∷◌, arith, inl, inr, ok, err, Result-cases,
  Option-cases,
}
use open_chat.Go.Bytes.{Bytes, eq_bytes_iff}
use open_chat.Go.Int64.{word}
use open_chat.Crypto.{Crypto}
use open_chat.Blockchain.Block
use open_chat.Blockchain.Block.{Block, verify_commit_quorum}
use open_chat.Blockchain.Chain.Store.{BlockStore, IsBlockStore, StoreError}
use open_chat.Blockchain.Chain.{
  Chain, ChainError, store_failed, admit, commit_txs, publish, append_block, after_txs,
  commit_block,
}
use open_chat.Blockchain.Chain.Txs.{commit_txs-get_block}

module _ (c : Crypto) (S : BlockStore) where
  -- The block, the state after its transactions, and the chain that holds it.
  abbrev pub stored_txs : Chain c S → Block → S.State
  stored_txs ch b = (commit_txs c S ch.store b.transactions).1

  abbrev pub with_store : Chain c S → S.State → Chain c S
  with_store ch s = record ch { store = s }

  abbrev pub extended : Chain c S → Block → S.State → Chain c S
  extended ch b s = record ch {
    store = s;
    tip = b.height;
    subs = publish c S (record { height = b.height; txs = b.transactions }) ch.subs;
  }

module _ (c : Crypto) (S : BlockStore) (ch : Chain c S) (b : Block) (q : ℕ) (vs : List Bytes) where
  pub data Outcome : Type 0 where
    refused :
        (e : ChainError)
        → admit c S ch b q vs ≡ err e
        → commit_block c S ch b q vs ≡ (err e, ch)
        → Outcome
    stopped :
        (e : ChainError)
        → admit c S ch b q vs ≡ ok tt
        → (commit_txs c S ch.store b.transactions).0 ≡ err e
        → commit_block c S ch b q vs ≡ (err e, with_store c S ch (stored_txs c S ch b))
        → Outcome
    unsaved :
        (e : StoreError)
        → admit c S ch b q vs ≡ ok tt
        → (commit_txs c S ch.store b.transactions).0 ≡ ok tt
        → S.put_block (stored_txs c S ch b) b ≡ err e
        → commit_block c S ch b q vs ≡ (err store_failed, with_store c S ch (stored_txs c S ch b))
        → Outcome
    committed :
        (s : S.State)
        → admit c S ch b q vs ≡ ok tt
        → (commit_txs c S ch.store b.transactions).0 ≡ ok tt
        → S.put_block (stored_txs c S ch b) b ≡ ok s
        → commit_block c S ch b q vs ≡ (ok tt, extended c S ch b s)
        → Outcome

  pub outcome : Outcome
  unfolding commit_block after_txs append_block
  outcome = elim (Result-cases (admit c S ch b q vs)) [
    | inl (e, p) ↦ refused e p (ground arith)
    | inr (_, p) ↦ elim (Result-cases (commit_txs c S ch.store b.transactions).0) [
      | inl (e, t) ↦ stopped e (ground arith) t (ground arith)
      | inr (_, t) ↦ elim (Result-cases (S.put_block (stored_txs c S ch b) b)) [
        | inl (e, u) ↦ unsaved e (ground arith) (ground arith) u (ground arith)
        | inr (s, u) ↦ committed s (ground arith) (ground arith) u (ground arith)
      ]
    ]
  ]

  -- What a block passed that was committed.
  pub record Admitted : Type 0 where
    pub current : Block
    pub found : S.get_block ch.store ch.tip ≡ ok (some current)
    pub next : b.height ≡ (ch.tip + 1) % word
    pub linked : b.prev_hash ≡ Block.hash c current
    pub has_quorum : verify_commit_quorum c b q vs ≡ true

  pub admit-Admitted : admit c S ch b q vs ≡ ok tt → Admitted
  unfolding admit
  admit-Admitted h = elim (Result-cases (S.get_block ch.store ch.tip)) [
    | inl (e, p) ↦ absurd (ground arith)
    | inr (o, p) ↦ elim (Option-cases o) [
      | inl n ↦ absurd (ground arith)
      | inr (cur, n) ↦ record {
        current = cur;
        found = ground arith;
        next = ground arith;
        linked = ground (arith, eq_bytes_iff b.prev_hash (Block.hash c cur));
        has_quorum = ground arith;
      }
    ]
  ]

module _ (c : Crypto) (S : BlockStore) {Storable : Block → Type 0}
    (laws : IsBlockStore S Storable) where
  -- Over a store that meets its laws, a commit that fails, for whatever reason, changes no stored
  -- block, nor the tip, nor what a subscriber holds.
  pub commit_block-err :
      (ch : Chain c S) (b : Block) (q : ℕ) (vs : List Bytes) {e : ChainError}
      → (commit_block c S ch b q vs).0 ≡ err e
      → let ch' = (commit_block c S ch b q vs).1 in
        (ch'.tip ≡ ch.tip)
        × (ch'.subs ≡ ch.subs)
        × ((h : ℕ) → S.get_block ch'.store h ≡ S.get_block ch.store h)
  commit_block-err ch b q vs h = elim (outcome c S ch b q vs) [
    | refused e a r ↦ rw r (refl, refl, λ k. refl)
    | stopped e a t r ↦ rw r (refl, refl, commit_txs-get_block c S laws ch.store b.transactions)
    | unsaved e a t u r ↦ rw r (refl, refl, commit_txs-get_block c S laws ch.store b.transactions)
    | committed s a t u r ↦ absurd (ground arith)
  ]

-- A sequence of calls of `CommitBlock`, from gossip, backfill or consensus, failing ones included.
module _ (c : Crypto) (S : BlockStore) where
  abbrev pub commit_all : Chain c S → ℕ → List Bytes → List Block → Chain c S
  commit_all ch q vs [] = ch
  commit_all ch q vs (b ∷ bs) = commit_all (commit_block c S ch b q vs).1 q vs bs
