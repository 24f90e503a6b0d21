-- ===== src/Consensus/Round/Squat.antt =====
-- The first proposal that arrives for a height and round decides it, whoever sent it.
use open_chat.Prelude.{
  ℕ, ◌≡◌, refl, Bool, false, some, List, [], ◌∷◌, arith, All, err, ◌==◌, Option-cases, inl, inr,
}
use open_chat.Go.Bytes.{Bytes, eq_bytes_iff}
use open_chat.Go.Map.{lookup, lookup-insert}
use open_chat.Crypto.{Crypto}
use open_chat.Blockchain.Chain.Store.{BlockStore}
use open_chat.Mempool.{RateLimiter}
use open_chat.Consensus.Vote.{VoteType, prevote, precommit, other}
use open_chat.Consensus.Engine.{
  Engine, Codec, Proposal, round_key, proposer_for, handle_proposal, handle_vote, store_proposal,
}
use open_chat.Consensus.Engine.Rounds.{gc_lem}
use open_chat.Consensus.Engine.Reachable
use open_chat.Consensus.Engine.Reachable.{
  Event, proposal_message, prevote_message, precommit_message, height_done,
}
use open_chat.Consensus.Round.{Node, RoundError, failed, validate_proposal, look_for_proposal}

-- Messages that do not end the height.
abbrev pub IsWithin : ℕ → Event → Type 0
IsWithin height (height_done h) = (h == height) ≡ false
IsWithin height other_event = Unit {0}

module _ (c : Crypto) (codec : Codec) where
  store_proposal-keeps :
      (e : Engine) (q : Proposal) (key : Bytes) {p : Proposal}
      → lookup e.proposals key ≡ some p
      → lookup (store_proposal e q).proposals key ≡ some p
  unfolding store_proposal
  store_proposal-keeps e q key h =
      let own = round_key q.block.height q.round in
      ground (arith, lookup-insert e.proposals own key q, eq_bytes_iff own key)

  handle_vote-proposals :
      (e : Engine) (want : VoteType) (m : Bytes)
      → (handle_vote c codec e want m).proposals ≡ e.proposals
  unfolding handle_vote
  handle_vote-proposals e prevote m = ground arith
  handle_vote-proposals e precommit m = ground arith
  handle_vote-proposals e (other n) m = ground arith

  step-keeps :
      (e : Engine) (height round : ℕ) (m : Event) (p : Proposal)
      → IsWithin height m
      → lookup e.proposals (round_key height round) ≡ some p
      → lookup (Reachable.step c codec e m).proposals (round_key height round) ≡ some p
  unfolding handle_proposal
  step-keeps e height round (proposal_message m) p w h =
      elim (Option-cases (codec.unmarshal_proposal m)) [
        | inl no_text ↦ rw (no_text, handle_proposal) h
        | inr (wire, sent) ↦ elim (Option-cases wire.block) [
          | inl bare ↦ rw (sent, handle_proposal) (rw bare h)
          | inr (b, full) ↦
              rw (sent, handle_proposal)
                (rw full (store_proposal-keeps e _ (round_key height round) h))
        ]
      ]
  step-keeps e height round (prevote_message m) p w h =
      ground (arith, handle_vote-proposals e prevote m)
  step-keeps e height round (precommit_message m) p w h =
      ground (arith, handle_vote-proposals e precommit m)
  step-keeps e height round (height_done k) p w h =
      let cleared = (gc_lem e k height round).0 in ground (arith, cleared)

  -- The first proposal for a height and round stays until that height is done, whatever arrives.
  pub first_proposal_stays :
      (e : Engine) (height round : ℕ) (ms : List Event) (p : Proposal)
      → All (IsWithin height) ms
      → lookup e.proposals (round_key height round) ≡ some p
      → lookup (Reachable.run c codec e ms).proposals (round_key height round) ≡ some p
  first_proposal_stays e height round [] p w h = h
  first_proposal_stays e height round (m ∷ ms) p w h =
      first_proposal_stays (Reachable.step c codec e m) height round ms p w.1
        (step-keeps e height round m p w.0 h)

module _ (c : Crypto) (S : BlockStore) (R : RateLimiter) (codec : Codec) where
  invalid_fails :
      (n : Node c S R codec) (published : Bool) (p : Proposal) (e : RoundError)
      → lookup n.engine.proposals (round_key n.height n.round) ≡ some p
      → validate_proposal c p (proposer_for n.engine n.height n.round) n.height ≡ err e
      → (look_for_proposal c S R codec n published).phase ≡ failed e
  unfolding look_for_proposal
  invalid_fails n published p e there bad = rw (there, look_for_proposal) (rw bad refl)

  -- Once a proposal that does not pass its checks stands for a round, from anybody on the network,
  -- the round fails on it, whatever further messages arrive: the real proposer's proposal among
  -- them is never looked at.
  pub squatted_round_fails :
      (n : Node c S R codec) (ms : List Event) (published : Bool) (p : Proposal) (e : RoundError)
      → All (IsWithin n.height) ms
      → lookup n.engine.proposals (round_key n.height n.round) ≡ some p
      → (let late = Reachable.run c codec n.engine ms in
          validate_proposal c p (proposer_for late n.height n.round) n.height ≡ err e
          → (look_for_proposal c S R codec (record n { engine = late }) published).phase ≡ failed e)
  squatted_round_fails n ms published p e within there bad =
      invalid_fails (record n { engine = Reachable.run c codec n.engine ms }) published p e
        (first_proposal_stays c codec n.engine n.height n.round ms p within there) bad
