-- ===== src/Examples/Votes.antt =====
-- Votes, keys and an engine at concrete values.
use open_chat.Prelude.{◌∷◌, [], List, none, some}
use open_chat.Go.Bytes.{codes}
use open_chat.Crypto.{toy}
use open_chat.Consensus.Vote
use open_chat.Consensus.Vote.{Vote, precommit, precommit_bytes_agree, sig_verifies-verify}
use open_chat.Consensus.Engine.{Engine, Codec, Config, Identity, new_engine, sort_strings}
use open_chat.Consensus.Engine.Votes.{IsSound}
use open_chat.Consensus.Engine.Reachable.{
  Event, proposal_message, prevote_message, precommit_message, height_done, run, reachable-IsSound,
}
use open_chat.Examples.Toys.{alice, alice_key, bob}

abbrev ballot : Vote
ballot = record {
  type = precommit;
  height = 7;
  round = 1;
  block_hash = codes "ab";
  voter = alice;
  signature = [];
}

-- Every text is a precommit of alice's.
abbrev parrot : Codec
parrot = record {
  unmarshal_proposal = λ m. none;
  unmarshal_vote = λ m. some (Vote.sign toy ballot alice_key);
}

abbrev config : Config
config = record {
  validators = bob ∷ alice ∷ [];
  block_max_txs = 0;
  round_timeout = 0;
  empty_block_gap = 0;
}

abbrev identity : Identity
identity = record { address = alice; priv = alice_key }

abbrev events : List Event
events =
    precommit_message []
    ∷ precommit_message []
    ∷ prevote_message []
    ∷ proposal_message []
    ∷ height_done 6
    ∷ []

abbrev voted : Engine
voted = run toy parrot (new_engine config identity) events

reachable-IsSound_example : IsSound toy (sort_strings config.validators) voted
reachable-IsSound_example = reachable-IsSound toy parrot config identity events
