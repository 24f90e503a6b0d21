-- ===== src/Consensus/Round/Invariant.antt =====
-- The invariant of a node's rounds: its votes are sound, and it votes on blocks of its height.
use open_chat.Prelude.{
  ℕ, ◌≡◌, refl, sym, subst, Bool, true, false, arith, leb, Bool-cases, Option-cases, Result-cases,
  Result, ok, err, inl, inr,
}
use open_chat.Go.Bytes.{Bytes, eq_bytes, eq_bytes_iff}
use open_chat.Go.Map.{lookup}
use open_chat.Crypto.{Crypto}
use open_chat.Blockchain.Block
use open_chat.Blockchain.Block.{Block, verify_commit_quorum}
use open_chat.Blockchain.Chain.Store.{BlockStore}
use open_chat.Blockchain.Chain.{Chain, head_block, ChainError}
use open_chat.Mempool.{RateLimiter}
use open_chat.Consensus.Engine.{
  Engine, Codec, Config, Proposal, handle_proposal, handle_vote, store_proposal, round_key,
  proposer_for, count_votes, gc,
}
use open_chat.Consensus.Engine.Votes.{IsSound}
use open_chat.Consensus.Engine.Reachable
use open_chat.Consensus.Engine.Reachable.{
  Event, proposal_message, prevote_message, precommit_message, height_done, step-IsSound,
  gc-IsSound,
}
use open_chat.Consensus.Round.{
  Node, Message, Phase, proposing, await_proposal, await_prevotes, await_precommits, committed,
  failed, validate_proposal, publish, propose, start, look_for_proposal, look_for_prevotes,
  look_for_precommits, certified, finish, expire, look, begin, advance_round, advance_height,
  Action, starts, looks, expires, receives, next_round, next_height, step,
}

-- A proposal that passed `validateProposal` has the round's height and proposer.
pub validate_proposal-ok :
    (c : Crypto) (p : Proposal) (proposer : Bytes) (height : ℕ)
    → validate_proposal c p proposer height ≡ ok tt
    → (p.block.height ≡ height) × (p.block.proposer ≡ proposer)
unfolding validate_proposal
validate_proposal-ok c p proposer height h = ground (arith, eq_bytes_iff p.block.proposer proposer)

-- The block that a round votes on is of the node's height.
abbrev pub PhaseFits : ℕ → Phase → Type 0
PhaseFits h (await_prevotes p) = p.block.height ≡ h
PhaseFits h (await_precommits p) = p.block.height ≡ h
PhaseFits h other = Unit {0}

module _ (c : Crypto) (S : BlockStore) (R : RateLimiter) (codec : Codec) where
  pub record IsNode (n : Node c S R codec) : Type 0 where
    pub sound : IsSound c n.engine.cfg.validators n.engine
    pub fits : PhaseFits n.height n.phase

  publish-IsNode :
      (n : Node c S R codec) (sent : Bool) (m : Message) (next : Phase)
      → IsNode n
      → PhaseFits n.height next
      → IsNode (publish c S R codec n sent m next)
  unfolding publish
  publish-IsNode n true m next i f = record { sound = i.sound; fits = f }
  publish-IsNode n false m next i f = record { sound = i.sound; fits = tt }

  look_for_proposal-IsNode :
      (n : Node c S R codec) (sent : Bool)
      → IsNode n
      → IsNode (look_for_proposal c S R codec n sent)
  unfolding look_for_proposal
  look_for_proposal-IsNode n sent i =
      elim (Option-cases (lookup n.engine.proposals (round_key n.height n.round))) [
        | inl e ↦ rw (e, look_for_proposal) i
        | inr (p, e) ↦
            elim (Result-cases
              (validate_proposal c p (proposer_for n.engine n.height n.round) n.height)) [
                | inl (x, bad) ↦
                    rw (e, look_for_proposal) (rw bad (record { sound = i.sound; fits = tt }))
                | inr (_, good) ↦
                    let f =
                      (validate_proposal-ok c p (proposer_for n.engine n.height n.round) n.height
                        good).0 in
                    rw (e, look_for_proposal) (rw good (publish-IsNode n sent _ _ i f))
              ]
      ]

  look_for_prevotes-IsNode :
      (n : Node c S R codec) (sent : Bool) (p : Proposal)
      → IsNode n
      → p.block.height ≡ n.height
      → IsNode (look_for_prevotes c S R codec n sent p)
  unfolding look_for_prevotes
  look_for_prevotes-IsNode n sent p i f =
      elim (Bool-cases (
        leb n.engine.quorum_size
          (count_votes n.engine.prevotes (round_key n.height n.round) (Block.hash c p.block)))) [
            | inl enough ↦ rw enough (publish-IsNode n sent _ _ i f)
            | inr few ↦ rw few i
          ]

  finish-IsNode :
      (n : Node c S R codec) (b : Block) (r : Result ChainError (Unit {0})) (ch : Chain c S)
      → IsNode n
      → IsNode (finish c S R codec n b (r, ch))
  unfolding finish
  finish-IsNode n b (err e) ch i = record { sound = i.sound; fits = tt }
  finish-IsNode n b (ok _) ch i = record { sound = i.sound; fits = tt }

  look_for_precommits-IsNode :
      (n : Node c S R codec) (p : Proposal)
      → IsNode n
      → IsNode (look_for_precommits c S R codec n p)
  unfolding look_for_precommits
  look_for_precommits-IsNode n p i =
      elim (Bool-cases (
        leb n.engine.quorum_size
          (count_votes n.engine.precommits (round_key n.height n.round) (Block.hash c p.block)))) [
            | inl enough ↦ rw enough (finish-IsNode n (certified c S R codec n p) _ _ i)
            | inr few ↦ rw few i
          ]

  propose-IsNode :
      (n : Node c S R codec) (sent : Bool) (now : ℕ)
      → IsNode n
      → IsNode (propose c S R codec n sent now)
  unfolding propose
  propose-IsNode n sent now i = elim (Result-cases (head_block c S n.chain)) [
    | inl (e, h) ↦ rw (h, propose) (record { sound = i.sound; fits = tt })
    | inr (b, h) ↦ rw (h, propose) (publish-IsNode n sent _ _ i tt)
  ]

  start-IsNode :
      (n : Node c S R codec) (sent : Bool) (now : ℕ)
      → IsNode n
      → IsNode (start c S R codec n sent now)
  unfolding start
  start-IsNode n sent now i =
      elim (Bool-cases (eq_bytes (proposer_for n.engine n.height n.round) n.engine.self.address)) [
        | inr other ↦ rw other (record { sound = i.sound; fits = tt })
        | inl own ↦ rw own (propose-IsNode n sent now i)
      ]

  -- The engine's messages leave configuration and quorum as they are.
  step-cfg : (e : Engine) (m : Event) → (Reachable.step c codec e m).cfg ≡ e.cfg
  unfolding handle_proposal handle_vote store_proposal gc
  step-cfg e (proposal_message m) = ground arith
  step-cfg e (prevote_message m) = ground arith
  step-cfg e (precommit_message m) = ground arith
  step-cfg e (height_done h) = refl

  receive-IsNode :
      (n : Node c S R codec) (m : Event) → IsNode n → IsNode (step c S R codec n (receives m))
  unfolding step
  receive-IsNode n m i = record {
    sound =
        subst (λ (cfg : Config). IsSound c cfg.validators (Reachable.step c codec n.engine m))
          (sym (step-cfg n.engine m))
          (step-IsSound c codec n.engine.cfg.validators n.engine m i.sound);
    fits = i.fits;
  }

  look-IsNode :
      (n : Node c S R codec) (sent : Bool) (ph : Phase)
      → PhaseFits n.height ph
      → IsNode n
      → IsNode (look c S R codec n sent ph)
  unfolding look
  look-IsNode n sent proposing f i = i
  look-IsNode n sent await_proposal f i = look_for_proposal-IsNode n sent i
  look-IsNode n sent (await_prevotes p) f i = look_for_prevotes-IsNode n sent p i f
  look-IsNode n sent (await_precommits p) f i = look_for_precommits-IsNode n p i
  look-IsNode n sent (committed b) f i = i
  look-IsNode n sent (failed e) f i = i

  begin-IsNode :
      (n : Node c S R codec) (sent : Bool) (now : ℕ) (ph : Phase)
      → IsNode n
      → IsNode (begin c S R codec n sent now ph)
  unfolding begin
  begin-IsNode n sent now proposing i = start-IsNode n sent now i
  begin-IsNode n sent now _ i = i

  expire-fits : (h : ℕ) (ph : Phase) → PhaseFits h ph → PhaseFits h (expire ph)
  expire-fits h proposing f = tt
  expire-fits h await_proposal f = tt
  expire-fits h (await_prevotes p) f = tt
  expire-fits h (await_precommits p) f = tt
  expire-fits h (committed b) f = tt
  expire-fits h (failed e) f = tt

  advance_round-IsNode :
      (n : Node c S R codec) (ph : Phase) → IsNode n → IsNode (advance_round c S R codec n ph)
  unfolding advance_round
  advance_round-IsNode n (failed e) i = record { sound = i.sound; fits = tt }
  advance_round-IsNode n _ i = i

  advance_height-IsNode :
      (n : Node c S R codec) (ph : Phase) → IsNode n → IsNode (advance_height c S R codec n ph)
  unfolding advance_height
  advance_height-IsNode n (committed b) i = record {
    sound = unfold gc in gc-IsSound c n.engine.cfg.validators n.engine n.height i.sound;
    fits = tt;
  }
  advance_height-IsNode n _ i = i

  -- Every action of the loop or of a handler keeps the invariant.
  pub step-IsNode : (n : Node c S R codec) (a : Action) → IsNode n → IsNode (step c S R codec n a)
  unfolding step
  step-IsNode n (starts sent now) i = begin-IsNode n sent now n.phase i
  step-IsNode n (looks sent) i = look-IsNode n sent n.phase i.fits i
  step-IsNode n expires i = record { sound = i.sound; fits = expire-fits n.height n.phase i.fits }
  step-IsNode n (receives m) i = receive-IsNode n m i
  step-IsNode n next_round i = advance_round-IsNode n n.phase i
  step-IsNode n next_height i = advance_height-IsNode n n.phase i
