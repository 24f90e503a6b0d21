-- ===== src/Consensus/Engine.antt =====
-- internal/consensus/pbft.go: the engine's maps, the handlers of the gossip topics, and `gc`. The
-- JSON decoders are a parameter.
pub mod Votes
pub mod Reachable
pub mod Rounds
use open_chat.Prelude.{
  ℕ, zero, suc, ◌+◌, ◌%◌, ◌≡◌, Bool, true, false, not, ◌&&◌, Option, none, some, List, [], ◌∷◌,
  ◌++◌, leb, ltb, ◌==◌, if◌then◌else◌, length, take, count_if,
}
use open_chat.Go.Bytes.{Bytes, eq_bytes, less}
use open_chat.Go.Decimal.{decimal}
use open_chat.Go.Int64.{word}
use open_chat.Go.Map.{Map, contains, lookup, insert, values}
use open_chat.Crypto.{Crypto}
use open_chat.Blockchain.Block.{Block}
use open_chat.Consensus.Quorum.{quorum}
use open_chat.Consensus.Vote.{Vote, VoteType, prevote, precommit, other}
use open_chat.Consensus.Vote

-- The JSON of a block may list `null` for a transaction, a nil pointer on which the code panics; the
-- blocks here have none.
pub record Proposal : Type 0 where
  pub block : Block
  pub round : ℕ
  pub proposer_sig : Bytes

-- A decoded proposal, which may lack its block.
pub record WireProposal : Type 0 where
  pub block : Option Block
  pub round : ℕ
  pub proposer_sig : Bytes

-- `json.Unmarshal` of a proposal and of a vote; `none` is an error.
pub record Codec : Type 0 where
  pub unmarshal_proposal : Bytes → Option WireProposal
  pub unmarshal_vote : Bytes → Option Vote

-- Durations are in nanoseconds.
pub record Config : Type 0 where
  pub validators : List Bytes
  pub block_max_txs : ℕ
  pub round_timeout : ℕ
  pub empty_block_gap : ℕ

pub record Identity : Type 0 where
  pub address : Bytes
  pub priv : Bytes

pub record Engine : Type 0 where
  pub cfg : Config
  pub self : Identity
  pub quorum_size : ℕ
  pub validator_set : List Bytes
  pub proposals : Map Proposal
  pub prevotes : Map (Map Vote)
  pub precommits : Map (Map Vote)

-- `sort.Strings`
unfoldable pub insert_string : Bytes → List Bytes → List Bytes
insert_string x [] = x ∷ []
insert_string x (y ∷ ys) =
    let rest = insert_string x ys in if less y x then y ∷ rest else x ∷ y ∷ ys

unfoldable pub sort_strings : List Bytes → List Bytes
unfolding insert_string
sort_strings [] = []
sort_strings (x ∷ xs) = insert_string x (sort_strings xs)

abbrev pub or_default : ℕ → ℕ → ℕ
or_default n d = if n == 0 then d else n

unfoldable pub new_engine : Config → Identity → Engine
new_engine cfg self =
    let validators = sort_strings cfg.validators in
    record {
      cfg = record {
        validators = validators;
        block_max_txs = or_default cfg.block_max_txs 500;
        round_timeout = or_default cfg.round_timeout 4000000000;
        empty_block_gap = or_default cfg.empty_block_gap 1000000000;
      };
      self = self;
      quorum_size = quorum (length validators);
      validator_set = validators;
      proposals = [];
      prevotes = [];
      precommits = [];
    }

abbrev pub nth_or : Bytes → List Bytes → ℕ → Bytes
nth_or d [] i = d
nth_or d (x ∷ xs) zero = x
nth_or d (x ∷ xs) (suc i) = nth_or d xs i

-- The empty string without validators.
unfoldable pub proposer_for : Engine → ℕ → ℕ → Bytes
proposer_for e height round =
    let n = length e.cfg.validators in
    if n == 0 then [] else nth_or [] e.cfg.validators ((height + round) % word % n)

-- `fmt.Sprintf("%d/%d", height, round)`; 47 is the slash.
unfoldable pub round_key : ℕ → ℕ → Bytes
round_key height round = decimal height ++ 47 ∷ decimal round

unfoldable pub has_prefix : Bytes → Bytes → Bool
has_prefix s prefix =
    if leb (length prefix) (length s) then eq_bytes (take (length prefix) s) prefix else false

-- The votes of a bucket under a key.
unfoldable pub bucket_of : Map (Map Vote) → Bytes → Map Vote
bucket_of bucket key = elim (lookup bucket key) [ none ↦ [] | some m ↦ m ]

unfoldable pub count_votes : Map (Map Vote) → Bytes → Bytes → ℕ
count_votes bucket key block_hash =
    count_if (λ (v : Vote). eq_bytes v.block_hash block_hash) (values (bucket_of bucket key))

abbrev pub type_eq : VoteType → VoteType → Bool
type_eq prevote prevote = true
type_eq precommit precommit = true
type_eq _ _ = false

-- The first vote of a voter stays.
unfoldable pub add_vote : Map Vote → Vote → Map Vote
add_vote m v = elim (lookup m v.voter) [ none ↦ insert m v.voter v | some old ↦ m ]

unfoldable pub record_vote : Map (Map Vote) → Vote → Map (Map Vote)
unfolding bucket_of add_vote
record_vote bucket v =
    let key = round_key v.height v.round in insert bucket key (add_vote (bucket_of bucket key) v)

abbrev pub store_vote : Engine → VoteType → Vote → Engine
store_vote e prevote v = record e { prevotes = record_vote e.prevotes v }
store_vote e precommit v = record e { precommits = record_vote e.precommits v }
store_vote e (other n) v = record e { prevotes = record_vote e.prevotes v }

module _ (c : Crypto) where
  -- The three reasons to drop a vote, in the order of the code.
  unfoldable pub accepts : Engine → VoteType → Vote → Bool
  accepts e want v =
      if not (type_eq v.type want)
      then false
      else if not (Vote.verify c v)
      then false
      else contains e.validator_set v.voter

  unfoldable pub handle_vote : Codec → Engine → VoteType → Bytes → Engine
  handle_vote J e want message = elim (J.unmarshal_vote message) [
    | none ↦ e
    | some v ↦ if accepts e want v then store_vote e want v else e
  ]

-- The first proposal of a height and round stays.
unfoldable pub store_proposal : Engine → Proposal → Engine
store_proposal e p =
    let key = round_key p.block.height p.round in
    elim (lookup e.proposals key) [
      | some old ↦ e
      | none ↦ record e { proposals = insert e.proposals key p }
    ]

unfoldable pub handle_proposal : Codec → Engine → Bytes → Engine
handle_proposal J e message = elim (J.unmarshal_proposal message) [
  | none ↦ e
  | some w ↦ elim w.block [
    | none ↦ e
    | some b ↦
        store_proposal e (record { block = b; round = w.round; proposer_sig = w.proposer_sig })
  ]
]

unfoldable pub without_prefix {ℓ} : {V : Type ℓ} → Map V → Bytes → Map V
without_prefix [] prefix = []
without_prefix ((k, v) ∷ m) prefix =
    let rest = without_prefix m prefix in if has_prefix k prefix then rest else (k, v) ∷ rest

unfoldable pub gc : Engine → ℕ → Engine
gc e height =
    let prefix = decimal height ++ 47 ∷ [] in
    record e {
      proposals = without_prefix e.proposals prefix;
      prevotes = without_prefix e.prevotes prefix;
      precommits = without_prefix e.precommits prefix;
    }
