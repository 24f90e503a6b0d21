-- ===== src/Examples/Rivals.antt =====
-- Two proposals of one height, and a proposal in the wrong name.
use open_chat.Prelude.{ℕ, ◌≡◌, refl, false, true, [], ◌∷◌, some, arith, ok, err}
use open_chat.Go.Bytes.{Bytes, eq_bytes}
use open_chat.Go.Hex.{decode, encode}
use open_chat.Go.BigEndian.{put_u64}
use open_chat.Go.Decimal.{decimal}
use open_chat.Go.Map.{Map, contains, lookup}
use open_chat.Crypto.{toy}
use open_chat.Blockchain.Block
use open_chat.Blockchain.Block.{Block, genesis_block, header_bytes, verify_commit_quorum}
use open_chat.Mempool.{new_pool}
use open_chat.Consensus.Vote
use open_chat.Consensus.Vote.{
  Vote, VoteType, prevote, precommit, hex_decode_pubkey, append_u32, append_u64, fill,
}
use open_chat.Consensus.Engine.{
  round_key, bucket_of, count_votes, proposer_for, accepts, add_vote, record_vote, handle_vote,
}
use open_chat.Consensus.Engine.Reachable
use open_chat.Consensus.Engine.Reachable.{
  Event, proposal_message, prevote_message, precommit_message, reachable-IsSound,
}
use open_chat.Consensus.Round.{
  Node, starts, looks, expires, next_round, votes, vote_of, await_proposal, await_prevotes, failed,
  unexpected_proposer, proposal_bytes, validate_proposal, verify_all, look_for_proposal,
}
use open_chat.Consensus.Round.Safety.{run}
use open_chat.Consensus.Round.Lock.{HasPrevotes, precommits_both}
use open_chat.Consensus.Round.Squat.{squatted_round_fails}
use open_chat.Examples.Toys.{alice, alice_key, bob, bob_key, shelf, generous}
use open_chat.Examples.Rounds.{empty_chain, plain, proposal, vote, codec, messages}

-- Bob holds a quorum of prevotes for a proposal of his own, and for alice's of the next round.
abbrev prevotes_for : Bytes → ℕ → ℕ → Map Vote
prevotes_for proposer time round =
    (alice, vote prevote alice alice_key time round proposer)
    ∷ (bob, vote prevote bob bob_key time round proposer)
    ∷ []

abbrev torn : Node toy shelf generous codec
torn = record {
  engine = record {
    cfg = record {
      validators = alice ∷ bob ∷ [];
      block_max_txs = 500;
      round_timeout = 4000000000;
      empty_block_gap = 1000000000;
    };
    self = record { address = bob; priv = bob_key };
    quorum_size = 2;
    validator_set = alice ∷ bob ∷ [];
    proposals =
        (round_key 1 0, proposal bob bob_key 5 0)
        ∷ (round_key 1 1, proposal alice alice_key 6 1)
        ∷ [];
    prevotes = (round_key 1 0, prevotes_for bob 5 0) ∷ (round_key 1 1, prevotes_for alice 6 1) ∷ [];
    precommits = [];
  };
  chain = empty_chain;
  pool = new_pool toy generous;
  height = 1;
  round = 0;
  phase = await_prevotes (proposal bob bob_key 5 0);
  sent = [];
}

holds_first : HasPrevotes toy shelf generous codec torn.engine 1 0 (proposal bob bob_key 5 0)
unfolding count_votes bucket_of lookup eq_bytes round_key decimal Vote.sign Block.hash header_bytes
    encode put_u64
holds_first = omega arith

holds_second : HasPrevotes toy shelf generous codec torn.engine 1 1 (proposal alice alice_key 6 1)
unfolding count_votes bucket_of lookup eq_bytes round_key decimal Vote.sign Block.hash header_bytes
    encode put_u64
holds_second = omega arith

proposer_is_other : eq_bytes (proposer_for torn.engine 1 1) bob ≡ false
unfolding proposer_for eq_bytes
proposer_is_other = refl

next_proposal : lookup torn.engine.proposals (round_key 1 1) ≡ some (proposal alice alice_key 6 1)
unfolding lookup eq_bytes round_key decimal
next_proposal = refl

next_is_valid :
    validate_proposal toy (proposal alice alice_key 6 1) (proposer_for torn.engine 1 1) 1 ≡ ok tt
unfolding validate_proposal verify_all proposer_for eq_bytes hex_decode_pubkey decode proposal_bytes
    append_u32 fill header_bytes put_u64
next_is_valid = refl

precommits_both_example :
    (run toy shelf generous codec torn
      (looks true ∷ expires ∷ next_round ∷ starts true 0 ∷ looks true ∷ looks true ∷ [])).sent
    ≡ votes (vote_of toy torn.engine precommit 1 1 (Block.hash toy (plain alice 6)))
      ∷ votes (vote_of toy torn.engine prevote 1 1 (Block.hash toy (plain alice 6)))
      ∷ votes (vote_of toy torn.engine precommit 1 0 (Block.hash toy (plain bob 5)))
      ∷ []
precommits_both_example =
    precommits_both toy shelf generous codec torn (proposal bob bob_key 5 0)
      (proposal alice alice_key 6 1) refl holds_first (omega arith) proposer_is_other next_proposal
      next_is_valid holds_second

-- Alice's name on a block for round 0, where it is bob's turn.
abbrev squatted : Node toy shelf generous codec
squatted = record torn {
  engine = record (torn.engine) { proposals = (round_key 1 0, proposal alice alice_key 5 0) ∷ [] };
  phase = await_proposal;
}

squatter_stands :
    lookup squatted.engine.proposals (round_key 1 0) ≡ some (proposal alice alice_key 5 0)
unfolding lookup eq_bytes round_key decimal
squatter_stands = refl

squatter_is_invalid :
    validate_proposal toy
      (proposal alice alice_key 5 0)
      (proposer_for (Reachable.run toy codec squatted.engine messages) 1 0)
      1
    ≡ err unexpected_proposer
unfolding validate_proposal handle_vote accepts record_vote add_vote bucket_of Vote.verify Vote.sign
    Vote.signing_bytes append_u64 append_u32 fill hex_decode_pubkey decode contains eq_bytes
    proposer_for Block.hash header_bytes put_u64 encode
squatter_is_invalid = refl

squatted_round_fails_example :
    (look_for_proposal toy shelf generous codec
      (record squatted { engine = Reachable.run toy codec squatted.engine messages })
      true).phase
    ≡ failed unexpected_proposer
squatted_round_fails_example =
    squatted_round_fails toy shelf generous codec squatted messages true
      (proposal alice alice_key 5 0) unexpected_proposer (tt, (tt, tt)) squatter_stands
      squatter_is_invalid
