-- ===== src/Consensus/Round/Lock.antt =====
-- A validator is not bound by its precommits: no round remembers what an earlier one voted for.
use open_chat.Prelude.{
  ℕ, ◌+◌, ◌^◌, ◌≤◌, ◌<◌, ◌≡◌, refl, ap, ◌∙◌, Bool, true, false, some, [], ◌∷◌, arith, le→leb, ok,
}
use open_chat.Go.Bytes.{eq_bytes}
use open_chat.Go.Map.{lookup}
use open_chat.Crypto.{Crypto}
use open_chat.Blockchain.Block
use open_chat.Blockchain.Chain.Store.{BlockStore}
use open_chat.Mempool.{RateLimiter}
use open_chat.Consensus.Vote.{prevote, precommit}
use open_chat.Consensus.Engine.{Engine, Codec, Proposal, round_key, proposer_for, count_votes}
use open_chat.Consensus.Round.{
  Node, votes, vote_of, await_proposal, await_prevotes, await_precommits, publish,
  validate_proposal, start, look_for_proposal, look_for_prevotes, look, begin, advance_round,
  starts, looks, expires, next_round, step,
}
use open_chat.Consensus.Round.Safety.{run}

module _ (c : Crypto) (S : BlockStore) (R : RateLimiter) (codec : Codec) where
  -- In this round the engine holds a quorum of prevotes for the proposal.
  abbrev pub HasPrevotes : Engine → ℕ → ℕ → Proposal → Type 0
  HasPrevotes e height round p =
      e.quorum_size ≤ count_votes e.prevotes (round_key height round) (Block.hash c p.block)

  precommit_step :
      (n : Node c S R codec) (p : Proposal)
      → n.phase ≡ await_prevotes p
      → HasPrevotes n.engine n.height n.round p
      → step c S R codec n (looks true) ≡ record n {
        phase = await_precommits p;
        sent =
            votes (vote_of c n.engine precommit n.height n.round (Block.hash c p.block)) ∷ n.sent;
      }
  unfolding step look look_for_prevotes publish
  precommit_step n p at enough = ground (arith, at, le→leb _ _ enough)

  round_step :
      (n : Node c S R codec) (p : Proposal) (published : Bool) (now : ℕ)
      → n.phase ≡ await_precommits p
      → n.round + 1 < 2 ^ 32
      → eq_bytes (proposer_for n.engine n.height (n.round + 1)) n.engine.self.address ≡ false
      → run c S R codec n (expires ∷ next_round ∷ starts published now ∷ [])
        ≡ record n { round = n.round + 1; phase = await_proposal }
  unfolding step begin advance_round start
  round_step n p published now at small other = ground (arith, at)

  prevote_step :
      (n : Node c S R codec) (p : Proposal)
      → n.phase ≡ await_proposal
      → lookup n.engine.proposals (round_key n.height n.round) ≡ some p
      → validate_proposal c p (proposer_for n.engine n.height n.round) n.height ≡ ok tt
      → step c S R codec n (looks true) ≡ record n {
        phase = await_prevotes p;
        sent = votes (vote_of c n.engine prevote n.height n.round (Block.hash c p.block)) ∷ n.sent;
      }
  unfolding step look look_for_proposal publish
  prevote_step n p at there valid = ground (arith, at, there, valid)

  -- A node that has precommitted the block of `p` precommits the block of `p'`, whichever that is,
  -- as soon as the round has timed out, another validator's proposal `p'` stands for the next round
  -- and passes its checks, and a quorum of prevotes for it is there. Both precommits are sent, for
  -- one height.
  pub precommits_both :
      (n : Node c S R codec) (p p' : Proposal)
      → n.phase ≡ await_prevotes p
      → HasPrevotes n.engine n.height n.round p
      → n.round + 1 < 2 ^ 32
      → eq_bytes (proposer_for n.engine n.height (n.round + 1)) n.engine.self.address ≡ false
      → lookup n.engine.proposals (round_key n.height (n.round + 1)) ≡ some p'
      → validate_proposal c p' (proposer_for n.engine n.height (n.round + 1)) n.height ≡ ok tt
      → HasPrevotes n.engine n.height (n.round + 1) p'
      → (run c S R codec n
          (looks true ∷ expires ∷ next_round ∷ starts true 0 ∷ looks true ∷ looks true ∷ [])).sent
        ≡ votes (vote_of c n.engine precommit n.height (n.round + 1) (Block.hash c p'.block))
          ∷ votes (vote_of c n.engine prevote n.height (n.round + 1) (Block.hash c p'.block))
          ∷ votes (vote_of c n.engine precommit n.height n.round (Block.hash c p.block))
          ∷ n.sent
  precommits_both n p p' at enough small other there valid enough' =
      let first = record n {
        phase = await_precommits p;
        sent =
            votes (vote_of c n.engine precommit n.height n.round (Block.hash c p.block)) ∷ n.sent;
      } in
      let second = record first { round = n.round + 1; phase = await_proposal } in
      let third = record second {
        phase = await_prevotes p';
        sent =
            votes (vote_of c n.engine prevote n.height (n.round + 1) (Block.hash c p'.block))
            ∷ first.sent;
      } in
      ap
        (λ (m : Node c S R codec).
          (run c S R codec m
            (expires ∷ next_round ∷ starts true 0 ∷ looks true ∷ looks true ∷ [])).sent)
        (precommit_step n p at enough)
      ∙ ap (λ (m : Node c S R codec). (run c S R codec m (looks true ∷ looks true ∷ [])).sent)
          (round_step first p true 0 refl small other)
      ∙ ap (λ (m : Node c S R codec). (run c S R codec m (looks true ∷ [])).sent)
          (prevote_step second p' refl there valid)
      ∙ ap (λ (m : Node c S R codec). m.sent) (precommit_step third p' refl enough')
