-- ===== src/Consensus/Round.antt =====
-- `runRound` of internal/consensus/pbft.go as a state machine: a phase for each `waitFor`, a step
-- for each look at its condition, and the handlers' messages in between.
pub mod Certificate
pub mod Invariant
pub mod Safety
pub mod Lock
pub mod Squat
use open_chat.Prelude.{
  ℕ, ◌+◌, ◌%◌, ◌^◌, ◌≡◌, Bool, true, false, not, Option, none, some, List, [], ◌∷◌, ◌++◌, leb, ◌==◌,
  if◌then◌else◌, Result, ok, err,
}
use open_chat.Go.Bytes.{Bytes, eq_bytes}
use open_chat.Go.Map.{Map, lookup}
use open_chat.Crypto.{Crypto}
use open_chat.Blockchain.Transaction
use open_chat.Blockchain.Transaction.{Transaction, TxError}
use open_chat.Blockchain.Block
use open_chat.Blockchain.Block.{Block, ValidatorSig, header_bytes, compute_merkle_root}
use open_chat.Blockchain.Chain.Store.{BlockStore}
use open_chat.Blockchain.Chain.{Chain, ChainError, commit_block, head_block}
use open_chat.Mempool
use open_chat.Mempool.{RateLimiter, Mempool}
use open_chat.Consensus.Vote
use open_chat.Consensus.Vote.{Vote, prevote, precommit, append_u32, hex_decode_pubkey}
use open_chat.Consensus.Engine.{
  Engine, Codec, Proposal, Identity, proposer_for, round_key, bucket_of, count_votes,
}
use open_chat.Consensus.Engine.Reachable
use open_chat.Consensus.Engine.Reachable.{Event}

pub data RoundError : Type 0 where
  publish_failed no_proposal no_prevote_quorum no_precommit_quorum : RoundError
  unexpected_proposer height_mismatch invalid_address invalid_proposer_sig : RoundError
  invalid_tx : TxError → RoundError
  no_head commit_failed : ChainError → RoundError

pub data Message : Type 0 where
  proposes : Proposal → Message
  votes : Vote → Message
  announces : Block → Message

pub data Phase : Type 0 where
  proposing await_proposal : Phase
  await_prevotes await_precommits : Proposal → Phase
  committed : Block → Phase
  failed : RoundError → Phase

unfoldable pub proposal_bytes : Proposal → Bytes
proposal_bytes p = append_u32 (header_bytes p.block) p.round

module _ (c : Crypto) where
  unfoldable pub verify_all : List Transaction → Result RoundError (Unit {0})
  verify_all [] = ok tt
  verify_all (tx ∷ txs) = elim (Transaction.verify c tx) [
    | err e ↦ err (invalid_tx e)
    | ok _ ↦ verify_all txs
  ]

  unfoldable pub validate_proposal : Proposal → Bytes → ℕ → Result RoundError (Unit {0})
  unfolding verify_all
  validate_proposal p proposer height =
      if not (eq_bytes p.block.proposer proposer)
      then err unexpected_proposer
      else if not (p.block.height == height)
      then err height_mismatch
      else elim (hex_decode_pubkey proposer) [
        | none ↦ err invalid_address
        | some pub_key ↦
            if c.verify pub_key (proposal_bytes p) p.proposer_sig
            then verify_all p.block.transactions
            else err invalid_proposer_sig
      ]

  abbrev pub vote_of : Engine → Vote.VoteType → ℕ → ℕ → Bytes → Vote
  vote_of e type height round block_hash =
      Vote.sign c
        (record {
          type = type;
          height = height;
          round = round;
          block_hash = block_hash;
          voter = e.self.address;
          signature = [];
        })
        e.self.priv

-- The precommits for a hash, as commit signatures of the round.
unfoldable pub collect : ℕ → Bytes → Map Vote → List ValidatorSig
collect round block_hash [] = []
collect round block_hash ((voter, v) ∷ m) =
    let rest = collect round block_hash m in
    if eq_bytes v.block_hash block_hash
    then record { validator = voter; round = round; signature = v.signature } ∷ rest
    else rest

-- The round's deadline at each `waitFor`.
abbrev pub expire : Phase → Phase
expire await_proposal = failed no_proposal
expire (await_prevotes p) = failed no_prevote_quorum
expire (await_precommits p) = failed no_precommit_quorum
expire other = other

-- What the engine's loop and its handlers do, in any order.
pub data Action : Type 0 where
  starts : Bool → ℕ → Action
  looks : Bool → Action
  expires : Action
  receives : Event → Action
  next_round next_height : Action

module _ (c : Crypto) (S : BlockStore) (R : RateLimiter) (codec : Codec) where
  pub record Node : Type 0 where
    pub engine : Engine
    pub chain : Chain c S
    pub pool : Mempool c R
    pub height : ℕ
    pub round : ℕ
    pub phase : Phase
    -- what was published, the latest first
    pub sent : List Message

  -- `err != nil` of `Publish` ends the round.
  unfoldable pub publish : Node → Bool → Message → Phase → Node
  publish n published m next =
      if published
      then record n { phase = next; sent = m ∷ n.sent }
      else record n { phase = failed publish_failed }

  unfoldable pub built_block : Node → ℕ → Block → Block
  built_block n now head = compute_merkle_root c (record {
    height = n.height;
    prev_hash = Block.hash c head;
    timestamp = now;
    proposer = n.engine.self.address;
    transactions = Mempool.propose c R n.pool n.engine.cfg.block_max_txs;
    merkle_root = [];
    commit_sigs = [];
  })

  unfoldable pub signed_proposal : Node → Block → Proposal
  signed_proposal n b =
      let p : Proposal = record { block = b; round = n.round; proposer_sig = [] } in
      record p { proposer_sig = c.sign n.engine.self.priv (proposal_bytes p) }

  unfoldable pub propose : Node → Bool → ℕ → Node
  unfolding publish built_block signed_proposal
  propose n published now = elim (head_block c S n.chain) [
    | err e ↦ record n { phase = failed (no_head e) }
    | ok head ↦
        publish n published (proposes (signed_proposal n (built_block n now head))) await_proposal
  ]

  unfoldable pub start : Node → Bool → ℕ → Node
  unfolding propose
  start n published now =
      if eq_bytes (proposer_for n.engine n.height n.round) n.engine.self.address
      then propose n published now
      else record n { phase = await_proposal }

  unfoldable pub look_for_proposal : Node → Bool → Node
  unfolding publish validate_proposal
  look_for_proposal n published = elim (lookup n.engine.proposals (round_key n.height n.round)) [
    | none ↦ n
    | some p ↦ elim (validate_proposal c p (proposer_for n.engine n.height n.round) n.height) [
      | err e ↦ record n { phase = failed e }
      | ok _ ↦
          publish n published
            (votes (vote_of c n.engine prevote n.height n.round (Block.hash c p.block)))
            (await_prevotes p)
    ]
  ]

  unfoldable pub look_for_prevotes : Node → Bool → Proposal → Node
  unfolding publish
  look_for_prevotes n published p =
      let block_hash = Block.hash c p.block in
      if leb n.engine.quorum_size
        (count_votes n.engine.prevotes (round_key n.height n.round) block_hash)
      then publish n published (votes (vote_of c n.engine precommit n.height n.round block_hash))
          (await_precommits p)
      else n

  -- The block of the proposal with its certificate.
  unfoldable pub certified : Node → Proposal → Block
  certified n p = record p.block {
    commit_sigs =
        collect n.round (Block.hash c p.block)
          (bucket_of n.engine.precommits (round_key n.height n.round));
  }

  -- `announceCommit` ignores its errors.
  unfoldable pub finish : Node → Block → Result ChainError (Unit {0}) × Chain c S → Node
  finish n b (err e, chain) = record n { chain = chain; phase = failed (commit_failed e) }
  finish n b (ok _, chain) = record n {
    chain = chain;
    pool = Mempool.remove c R n.pool b.transactions;
    phase = committed b;
    sent = announces b ∷ n.sent;
  }

  -- The count, the certificate and the commit are one step, so no message arrives in between.
  unfoldable pub look_for_precommits : Node → Proposal → Node
  unfolding finish
  look_for_precommits n p =
      if leb n.engine.quorum_size
        (count_votes n.engine.precommits (round_key n.height n.round) (Block.hash c p.block))
      then finish n (certified n p)
          (commit_block c S n.chain (certified n p) n.engine.quorum_size n.engine.cfg.validators)
      else n

  unfoldable pub look : Node → Bool → Phase → Node
  look n published await_proposal = look_for_proposal n published
  look n published (await_prevotes p) = look_for_prevotes n published p
  look n published (await_precommits p) = look_for_precommits n p
  look n published other = n

  unfoldable pub begin : Node → Bool → ℕ → Phase → Node
  begin n published now proposing = start n published now
  begin n published now other = n

  -- `runHeight` counts the rounds in a `uint32`, and `Run` goes on from the chain's height.
  advance_round : Node → Phase → Node
  advance_round n (failed e) = record n { round = (n.round + 1) % 2 ^ 32; phase = proposing }
  advance_round n other = n

  advance_height : Node → Phase → Node
  advance_height n (committed b) = record n {
    engine = open_chat.Consensus.Engine.gc n.engine n.height;
    height = (n.chain.tip + 1) % 2 ^ 64;
    round = 0;
    phase = proposing;
  }
  advance_height n other = n

  unfoldable pub step : Node → Action → Node
  unfolding look begin advance_round advance_height
  step n (starts published now) = begin n published now n.phase
  step n (looks published) = look n published n.phase
  step n expires = record n { phase = expire n.phase }
  step n (receives m) = record n { engine = Reachable.step c codec n.engine m }
  step n next_round = advance_round n n.phase
  step n next_height = advance_height n n.phase
