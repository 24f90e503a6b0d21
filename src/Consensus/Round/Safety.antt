-- ===== src/Consensus/Round/Safety.antt =====
-- What the invariant of the rounds spares the ledger.
use open_chat.Prelude.{
  ℕ, ◌≤◌, ◌≡◌, ◌≢◌, ap, ◌∙◌, subst, true, List, [], ◌∷◌, arith, leb, leb→le, Bool-cases,
  Result-cases, Result, ok, err, inl, inr,
}
use open_chat.Go.Bytes.{Bytes}
use open_chat.Crypto.{Crypto}
use open_chat.Blockchain.Block
use open_chat.Blockchain.Block.{Block, verify_commit_quorum}
use open_chat.Blockchain.Transaction
use open_chat.Blockchain.Chain.Store.{BlockStore}
use open_chat.Blockchain.Chain.{
  Chain, ChainError, insufficient_quorum, admit, commit_block, commit_txs, take_tx,
}
use open_chat.Blockchain.Chain.Commit.{
  refused, stopped, unsaved, committed as was_committed, outcome,
}
use open_chat.Mempool.{RateLimiter, Mempool}
use open_chat.Consensus.Engine.{
  Codec, Config, Identity, Proposal, round_key, count_votes, bucket_of, new_engine,
}
use open_chat.Consensus.Engine.Reachable.{reachable-IsSound}
use open_chat.Consensus.Round.{
  Node, proposing, await_precommits, failed, commit_failed, Action, step, look_for_precommits,
  certified, finish, collect,
}
use open_chat.Consensus.Round.Certificate.{certificate_verifies}
use open_chat.Consensus.Round.Invariant.{IsNode, PhaseFits, step-IsNode}

module _ (c : Crypto) (S : BlockStore) where
  take_tx-ne-quorum :
      (s : S.State) (tx : Transaction.Transaction) → take_tx c S s tx ≢ err insufficient_quorum
  unfolding take_tx
  take_tx-ne-quorum s tx h = ground arith

  commit_txs-ne-quorum :
      (s : S.State) (txs : List Transaction.Transaction)
      → (commit_txs c S s txs).0 ≢ err insufficient_quorum
  unfolding commit_txs
  commit_txs-ne-quorum s [] h = cc
  commit_txs-ne-quorum s (tx ∷ txs) h = elim (Result-cases (take_tx c S s tx)) [
    | inl (e, p) ↦ take_tx-ne-quorum s tx (p ∙ ap (λ (x : ChainError). err x) (ground arith))
    | inr (s', p) ↦ commit_txs-ne-quorum s' txs (rw (p, commit_txs) at h)
  ]

  commit_block-ne-quorum :
      (ch : Chain c S) (b : Block) (q : ℕ) (vs : List Bytes)
      → verify_commit_quorum c b q vs ≡ true
      → (commit_block c S ch b q vs).0 ≢ err insufficient_quorum
  unfolding admit
  commit_block-ne-quorum ch b q vs good h = elim (outcome c S ch b q vs) [
    | refused e p r ↦ ground arith
    | stopped e p t r ↦ commit_txs-ne-quorum ch.store b.transactions (ground arith)
    | unsaved e p t u r ↦ ground arith
    | was_committed s p t u r ↦ ground arith
  ]

module _ (c : Crypto) (S : BlockStore) (R : RateLimiter) (codec : Codec) where
  abbrev pub run : Node c S R codec → List Action → Node c S R codec
  run n [] = n
  run n (a ∷ as') = run (step c S R codec n a) as'

  run-IsNode :
      (n : Node c S R codec) (as' : List Action)
      → IsNode c S R codec n
      → IsNode c S R codec (run n as')
  run-IsNode n [] i = i
  run-IsNode n (a ∷ as') i = run-IsNode (step c S R codec n a) as' (step-IsNode c S R codec n a i)

  finish-phase :
      (n : Node c S R codec) (b : Block) (r : Result ChainError (Unit {0}) × Chain c S)
      → r.0 ≢ err insufficient_quorum
      → (finish c S R codec n b r).phase ≢ failed (commit_failed insufficient_quorum)
  unfolding finish
  finish-phase n b (err e, ch) h x = ground arith
  finish-phase n b (ok _, ch) h x = cc

  pub certified_verifies :
      (n : Node c S R codec) (p : Proposal) (q : ℕ)
      → IsNode c S R codec n
      → p.block.height ≡ n.height
      → q ≤ count_votes n.engine.precommits (round_key n.height n.round) (Block.hash c p.block)
      → verify_commit_quorum c (certified c S R codec n p) q n.engine.cfg.validators ≡ true
  unfolding certified
  certified_verifies n p q i f =
      subst
        (λ (h : ℕ).
          q ≤ count_votes n.engine.precommits (round_key h n.round) (Block.hash c p.block)
          → verify_commit_quorum c
              (record p.block {
                commit_sigs =
                    collect n.round (Block.hash c p.block)
                      (bucket_of n.engine.precommits (round_key h n.round));
              })
              q n.engine.cfg.validators
            ≡ true)
        f (certificate_verifies c n.engine.cfg.validators n.engine p.block n.round q i.sound)

  -- A round that has counted a quorum of precommits never fails at the ledger's own check of the
  -- quorum: the certificate that it hands over passes `VerifyCommitQuorum`.
  pub certificate_accepted :
      (n : Node c S R codec) (p : Proposal)
      → IsNode c S R codec n
      → n.phase ≡ await_precommits p
      → (look_for_precommits c S R codec n p).phase ≢ failed (commit_failed insufficient_quorum)
  unfolding look_for_precommits
  certificate_accepted n p i ph bad =
      let f : p.block.height ≡ n.height = subst (PhaseFits n.height) ph i.fits in
      let b = certified c S R codec n p in
      elim (Bool-cases (
        leb n.engine.quorum_size
          (count_votes n.engine.precommits (round_key n.height n.round) (Block.hash c p.block)))) [
            | inr few ↦ ground arith
            | inl enough ↦
                finish-phase n b
                  (commit_block c S n.chain b n.engine.quorum_size n.engine.cfg.validators)
                  (commit_block-ne-quorum c S n.chain b n.engine.quorum_size n.engine.cfg.validators
                    (certified_verifies n p n.engine.quorum_size i f (leb→le _ _ enough)))
                  (rw enough at bad)
          ]

  -- A node at its start, before its first height.
  abbrev pub new_node : Config → Identity → Chain c S → Mempool c R → ℕ → Node c S R codec
  new_node cfg self chain pool height = record {
    engine = new_engine cfg self;
    chain = chain;
    pool = pool;
    height = height;
    round = 0;
    phase = proposing;
    sent = [];
  }

  new_node-IsNode :
      (cfg : Config) (self : Identity) (chain : Chain c S) (pool : Mempool c R) (height : ℕ)
      → IsNode c S R codec (new_node cfg self chain pool height)
  unfolding new_engine
  new_node-IsNode cfg self chain pool height = record {
    sound = reachable-IsSound c codec cfg self [];
    fits = tt;
  }

  -- In every state that a node reaches, by any messages, timeouts and failures to publish, a round
  -- that waits for precommits does not fail at the ledger for want of a quorum.
  pub reachable_certificate_accepted :
      (cfg : Config) (self : Identity) (chain : Chain c S) (pool : Mempool c R) (height : ℕ)
      (actions : List Action) (p : Proposal)
      → let n = run (new_node cfg self chain pool height) actions in
        n.phase ≡ await_precommits p
        → (look_for_precommits c S R codec n p).phase ≢ failed (commit_failed insufficient_quorum)
  reachable_certificate_accepted cfg self chain pool height actions p =
      certificate_accepted (run (new_node cfg self chain pool height) actions) p (
        run-IsNode (new_node cfg self chain pool height) actions
          (new_node-IsNode cfg self chain pool height))
