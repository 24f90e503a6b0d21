-- ===== src/Blockchain/Chain/Linkage.antt =====
-- The invariant of the ledger: each block names the hash of the one below it and has a quorum.
use open_chat.Prelude.{ℕ, suc, ◌<◌, ◌≡◌, true, some, List, [], ◌∷◌, arith, All, ok}
use native.Mathlib.Decide.{ℕ_discrete}
use open_chat.Go.Bytes.{Bytes}
use open_chat.Go.Int64.{IsWord}
use open_chat.Crypto.{Crypto}
use open_chat.Blockchain.Block
use open_chat.Blockchain.Block.{Block, verify_commit_quorum}
use open_chat.Blockchain.Chain.Store.{BlockStore, IsBlockStore}
use open_chat.Blockchain.Chain.{Chain, commit_block}
use open_chat.Blockchain.Chain.Txs.{commit_txs-get_block}
use open_chat.Blockchain.Chain.Commit.{
  refused, stopped, unsaved, committed, outcome, stored_txs, with_store, commit_all, Admitted,
  admit-Admitted,
}

module _ (c : Crypto) (S : BlockStore) (q : ℕ) (vs : List Bytes) where
  -- The blocks at `h` and above it.
  pub record Link (s : S.State) (h : ℕ) : Type 0 where
    pub below : Block
    pub above : Block
    pub below_stored : S.get_block s h ≡ ok (some below)
    pub above_stored : S.get_block s (suc h) ≡ ok (some above)
    pub above_height : above.height ≡ suc h
    pub linked : above.prev_hash ≡ Block.hash c below
    pub has_quorum : verify_commit_quorum c above q vs ≡ true

  pub record IsLinked (ch : Chain c S) : Type 0 where
    pub tip_word : IsWord ch.tip
    pub links : (h : ℕ) → h < ch.tip → Link ch.store h

module _ (c : Crypto) (S : BlockStore) {Storable : Block → Type 0} (laws : IsBlockStore S Storable)
    (q : ℕ) (vs : List Bytes) where
  move-Link :
      (s s' : S.State) (h : ℕ)
      → S.get_block s' h ≡ S.get_block s h
      → S.get_block s' (suc h) ≡ S.get_block s (suc h)
      → Link c S q vs s h
      → Link c S q vs s' h
  move-Link s s' h e e' l = record {
    below = l.below;
    above = l.above;
    below_stored = ground (arith, l.below_stored);
    above_stored = ground (arith, l.above_stored);
    above_height = l.above_height;
    linked = l.linked;
    has_quorum = l.has_quorum;
  }

  extended-Link :
      (ch : Chain c S) (b : Block) (s : S.State)
      → Storable b
      → IsLinked c S q vs ch
      → Admitted c S ch b q vs
      → S.put_block (stored_txs c S ch b) b ≡ ok s
      → (h : ℕ) → h < b.height
      → Link c S q vs s h
  extended-Link ch b s st l a u h below =
      let read : (k : ℕ) → IsWord k → S.get_block s k ≡ _ =
        λ k w. laws.get_block-put_block (stored_txs c S ch b) b k st (omega (arith, a.next)) w u in
      let old = commit_txs-get_block c S laws ch.store b.transactions in
      let tip_word = l.tip_word in
      elim (ℕ_discrete h ch.tip) [
        | yes top ↦ record {
          below = a.current;
          above = b;
          below_stored = ground (arith, read h (omega (arith, a.next)), old h, a.found, a.next);
          above_stored = ground (arith, read (suc h) (omega (arith, a.next)), a.next);
          above_height = omega (arith, a.next);
          linked = a.linked;
          has_quorum = a.has_quorum;
        }
        | no lower ↦
            move-Link ch.store s h (ground (arith, read h (omega (arith, a.next)), old h, a.next))
              (ground (arith, read (suc h) (omega (arith, a.next)), old (suc h), a.next))
              (l.links h (omega (arith, a.next)))
      ]

  -- Every call of `CommitBlock`, failing or not, keeps a linked ledger linked: at each height below
  -- the tip the next block has the next number, names the hash of the block, and has a quorum.
  pub commit_block-IsLinked :
      (ch : Chain c S) (b : Block)
      → Storable b
      → IsLinked c S q vs ch
      → IsLinked c S q vs (commit_block c S ch b q vs).1
  commit_block-IsLinked ch b st l =
      let old = commit_txs-get_block c S laws ch.store b.transactions in
      let kept : IsLinked c S q vs (with_store c S ch (stored_txs c S ch b)) = record {
        tip_word = l.tip_word;
        links =
            λ h lt. move-Link ch.store (stored_txs c S ch b) h (old h) (old (suc h)) (l.links h lt);
      } in
      elim (outcome c S ch b q vs) [
        | refused e p r ↦ rw r l
        | stopped e p t r ↦ rw r kept
        | unsaved e p t u r ↦ rw r kept
        | committed s p t u r ↦
            let a = admit-Admitted c S ch b q vs p in
            rw r
              (record { tip_word = omega (arith, a.next); links = extended-Link ch b s st l a u })
      ]

  -- A ledger that starts at height 0, over a store that meets its laws, is linked after any calls
  -- of `CommitBlock`, failing ones included, with blocks that the store can encode.
  pub commit_all-IsLinked :
      (ch : Chain c S) (bs : List Block)
      → ch.tip ≡ 0
      → All Storable bs
      → IsLinked c S q vs (commit_all c S ch q vs bs)
  commit_all-IsLinked ch bs e st = run ch bs st start
    where
      start : IsLinked c S q vs ch
      start = record { tip_word = omega arith; links = λ h lt. absurd (omega arith) }

      run :
          (ch : Chain c S) (bs : List Block)
          → All Storable bs
          → IsLinked c S q vs ch
          → IsLinked c S q vs (commit_all c S ch q vs bs)
      run ch [] st l = l
      run ch (b ∷ bs) st l =
          run (commit_block c S ch b q vs).1 bs st.1 (commit_block-IsLinked ch b st.0 l)
