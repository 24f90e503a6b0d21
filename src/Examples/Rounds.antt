-- ===== src/Examples/Rounds.antt =====
-- Rounds of a node of two validators, and of one.
use open_chat.Prelude.{
  ℕ, zero, suc, ◌≤◌, ◌≡◌, ◌≢◌, refl, false, true, List, [], ◌∷◌, Option, none, some, arith,
}
use open_chat.Go.Bytes.{Bytes, eq_bytes, codes}
use open_chat.Go.Hex.{decode, encode}
use open_chat.Go.BigEndian.{put_u64}
use open_chat.Go.Decimal.{decimal}
use open_chat.Go.Map.{contains, lookup, insert}
use open_chat.Crypto.{toy}
use open_chat.Blockchain.Block
use open_chat.Blockchain.Block.{Block, genesis_block, header_bytes, verify_commit_quorum}
use open_chat.Blockchain.Chain.{Chain, insufficient_quorum, head_block}
use open_chat.Mempool.{new_pool}
use open_chat.Consensus.Vote
use open_chat.Consensus.Vote.{
  Vote, VoteType, prevote, precommit, hex_decode_pubkey, append_u32, append_u64, fill,
}
use open_chat.Consensus.Quorum.{quorum}
use open_chat.Consensus.Engine.{
  Engine, Codec, Config, Identity, Proposal, WireProposal, new_engine, round_key, bucket_of,
  count_votes, proposer_for, accepts, add_vote, record_vote, handle_vote, handle_proposal,
  store_proposal, sort_strings, insert_string,
}
use open_chat.Consensus.Engine.Reachable
use open_chat.Consensus.Engine.Reachable.{
  Event, proposal_message, prevote_message, precommit_message, reachable-IsSound,
}
use open_chat.Consensus.Round.{
  Node, Action, starts, looks, receives, await_precommits, failed, commit_failed, proposal_bytes,
  validate_proposal, verify_all, look_for_proposal, look_for_prevotes, look_for_precommits, publish,
  propose, start, step, look, begin, signed_proposal, built_block,
}
use open_chat.Consensus.Round.Safety.{run, new_node, reachable_certificate_accepted}
use open_chat.Examples.Toys.{alice, alice_key, shelf, generous}

abbrev pub empty_chain : Chain toy shelf
empty_chain = record {
  store = record { blocks = genesis_block toy ∷ []; nonces = []; broken = false };
  tip = 0;
  subs = [];
  next_id = 0;
}

-- An empty block of height 1.
abbrev pub plain : Bytes → ℕ → Block
plain proposer time = record {
  height = 1;
  prev_hash = codes "00";
  timestamp = time;
  proposer = proposer;
  transactions = [];
  merkle_root = codes "11";
  commit_sigs = [];
}

abbrev pub proposal : Bytes → Bytes → ℕ → ℕ → Proposal
proposal proposer priv time round = record {
  block = plain proposer time;
  round = round;
  proposer_sig =
      toy.sign priv
        (proposal_bytes (record { block = plain proposer time; round = round; proposer_sig = [] }));
}

abbrev pub vote : VoteType → Bytes → Bytes → ℕ → ℕ → Bytes → Vote
vote type voter priv time round proposer =
    Vote.sign toy
      (record {
        type = type;
        height = 1;
        round = round;
        block_hash = Block.hash toy (plain proposer time);
        voter = voter;
        signature = [];
      })
      priv

-- The first byte of a text says who votes, or proposes, and how.
abbrev read_proposal : Bytes → Option WireProposal
read_proposal (zero ∷ m) = some (record {
  block = some (plain alice 5);
  round = 0;
  proposer_sig = (proposal alice alice_key 5 0).proposer_sig;
})
read_proposal m = none

abbrev read_vote : Bytes → Option Vote
read_vote (zero ∷ m) = some (vote prevote alice alice_key 5 0 alice)
read_vote (suc zero ∷ m) = some (vote precommit alice alice_key 5 0 alice)
read_vote m = none

abbrev pub codec : Codec
codec = record { unmarshal_proposal = read_proposal; unmarshal_vote = read_vote }

abbrev alone : Config
alone = record {
  validators = alice ∷ [];
  block_max_txs = 0;
  round_timeout = 0;
  empty_block_gap = 0;
}

abbrev alice_self : Identity
alice_self = record { address = alice; priv = alice_key }

abbrev pub messages : List Event
messages = precommit_message (0 ∷ []) ∷ precommit_message (1 ∷ []) ∷ []

abbrev sound_engine : Engine
sound_engine = Reachable.run toy codec (new_engine alone alice_self) messages

has_precommit :
    1 ≤ count_votes sound_engine.precommits (round_key 1 0) (Block.hash toy (plain alice 5))
unfolding Block.hash header_bytes put_u64 encode new_engine sort_strings insert_string quorum
    handle_vote accepts record_vote add_vote bucket_of count_votes Vote.verify Vote.sign
    Vote.signing_bytes append_u64 append_u32 fill hex_decode_pubkey decode contains eq_bytes lookup
    insert round_key decimal
has_precommit = omega arith

-- Alice proposes, votes and counts, up to the wait for precommits.
abbrev actions : List Action
actions =
    starts true 5
    ∷ receives (proposal_message (0 ∷ []))
    ∷ looks true
    ∷ receives (prevote_message (0 ∷ []))
    ∷ looks true
    ∷ receives (precommit_message (1 ∷ []))
    ∷ []

abbrev waiting : Node toy shelf generous codec
waiting =
    run toy shelf generous codec
      (new_node toy shelf generous codec alone alice_self empty_chain (new_pool toy generous) 1)
      actions

waits : waiting.phase ≡ await_precommits (proposal alice alice_key 5 0)
unfolding step look begin start propose publish head_block look_for_proposal look_for_prevotes
    validate_proposal verify_all proposer_for handle_proposal store_proposal handle_vote accepts
    record_vote add_vote bucket_of count_votes new_engine sort_strings insert_string quorum
    Vote.verify Vote.sign Vote.signing_bytes append_u64 append_u32 fill hex_decode_pubkey decode
    encode contains eq_bytes lookup insert round_key decimal Block.hash header_bytes put_u64
    proposal_bytes signed_proposal built_block genesis_block
waits = refl

reachable_certificate_accepted_example :
    (look_for_precommits toy shelf generous codec waiting (proposal alice alice_key 5 0)).phase
    ≢ failed (commit_failed insufficient_quorum)
reachable_certificate_accepted_example =
    reachable_certificate_accepted toy shelf generous codec alone alice_self empty_chain
      (new_pool toy generous) 1 actions (proposal alice alice_key 5 0) waits
