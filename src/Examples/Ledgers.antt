-- ===== src/Examples/Ledgers.antt =====
-- A ledger with one validator, its first block, and a store that fails.
use open_chat.Prelude.{ℕ, ◌≡◌, ◌≢◌, ◌<◌, inl, refl, ◌∷◌, [], List, arith, leb, true, false, ok, err}
use open_chat.Go.Bytes.{Bytes, codes}
use open_chat.Go.Bytes.{eq_bytes}
use open_chat.Go.Hex.{decode, encode}
use open_chat.Go.BigEndian.{put_u64, put_u32}
use open_chat.Go.Map.{contains, lookup, insert}
use open_chat.Crypto.{toy}
use open_chat.Blockchain.Transaction
use open_chat.Blockchain.Transaction.{Transaction}
use open_chat.Blockchain.Block
use open_chat.Blockchain.Block.{
  Block, ValidatorSig, genesis_block, precommit_signing_bytes, verify_commit_quorum,
}
use open_chat.Blockchain.Block.Quorum.{signers, verify_commit_quorum-eq-signers}
use open_chat.Blockchain.Chain.{
  Chain, store_failed, replayed_nonce, commit_block, admit, commit_txs, take_tx, append_block,
  after_txs,
}
use open_chat.Blockchain.Chain.Commit.{commit_block-err, commit_all, stored_txs}
use open_chat.Blockchain.Chain.Nonces.{never_committed_twice, failed_put_is_final}
use open_chat.Blockchain.Chain.Linkage.{IsLinked, commit_all-IsLinked}
use open_chat.Blockchain.Chain.Txs.{AreWords}
use open_chat.Blockchain.Chain.Store.{failed}
use open_chat.Consensus.Quorum.{max_faulty, quorum, double_signers, commits_overlap}
use open_chat.Examples.Toys.{alice, alice_key, signed_greeting, shelf, shelf-IsBlockStore}

abbrev validators : List Bytes
validators = alice ∷ []

abbrev unsigned_block : List Transaction → Block
unsigned_block txs = record {
  height = 1;
  prev_hash = Block.hash toy (genesis_block toy);
  timestamp = 5;
  proposer = alice;
  transactions = txs;
  merkle_root = codes "root";
  commit_sigs = [];
}

abbrev block_sig : Block → ValidatorSig
block_sig b = record {
  validator = alice;
  round = 0;
  signature = toy.sign alice_key (precommit_signing_bytes 1 0 (Block.hash toy b));
}

abbrev first_block : Block
first_block = record (unsigned_block (signed_greeting 1 ∷ [])) {
  commit_sigs = block_sig (unsigned_block (signed_greeting 1 ∷ [])) ∷ [];
}

-- The ledger at its genesis block, over a store that works or not.
abbrev start_at : List Block → Chain toy shelf
start_at bs = record {
  store = record { blocks = bs; nonces = []; broken = false };
  tip = 0;
  subs = [];
  next_id = 0;
}

abbrev broken_start : Chain toy shelf
broken_start = record {
  store = record { blocks = genesis_block toy ∷ []; nonces = []; broken = true };
  tip = 0;
  subs = [];
  next_id = 0;
}

abbrev start : Chain toy shelf
start = start_at (genesis_block toy ∷ [])

one_validator : verify_commit_quorum toy first_block 1 validators ≡ true
unfolding verify_commit_quorum Block.hash Block.header_bytes Block.count_valid Block.counts
    Block.sig_verifies precommit_signing_bytes Transaction.decode_address contains eq_bytes decode
    encode put_u64 put_u32 genesis_block Block.compute_merkle_root Block.merkle_root_of
one_validator = refl

verify_commit_quorum-eq-signers_example :
    verify_commit_quorum toy first_block 1 validators ≡ leb 1 (signers toy first_block validators)
unfolding contains
verify_commit_quorum-eq-signers_example =
    verify_commit_quorum-eq-signers toy first_block 1 validators (refl, tt)

commits : (commit_block toy shelf start first_block 1 validators).0 ≡ ok tt
unfolding verify_commit_quorum Block.hash Block.header_bytes Block.count_valid Block.counts
    Block.sig_verifies precommit_signing_bytes Transaction.decode_address contains eq_bytes decode
    encode put_u64 put_u32 genesis_block Block.compute_merkle_root Block.merkle_root_of commit_block
    admit commit_txs append_block after_txs take_tx Transaction.verify Transaction.sign
    Transaction.signing_bytes lookup insert
commits = refl

-- Another block with the same transaction, signed as well.
abbrev other_block : Block
other_block = record (unsigned_block (signed_greeting 1 ∷ signed_greeting 2 ∷ [])) { timestamp = 6 }

quorum_of_one : verify_commit_quorum toy first_block (quorum 1) validators ≡ true
unfolding quorum
quorum_of_one = one_validator

commits_overlap_example : max_faulty 1 < double_signers toy first_block first_block validators
unfolding contains
commits_overlap_example =
    commits_overlap toy first_block first_block validators (refl, tt) (omega arith) quorum_of_one
      quorum_of_one

small_nonces : AreWords (signed_greeting 1 ∷ [])
unfolding Transaction.sign
small_nonces = (omega arith, tt)

two_small_nonces : AreWords other_block.transactions
unfolding Transaction.sign
two_small_nonces = (omega arith, (omega arith, tt))

never_committed_twice_example :
    (commit_block toy shelf
      (commit_all toy shelf
        (commit_block toy shelf start first_block 1 validators).1
        1
        validators
        (first_block ∷ []))
      other_block
      1
      validators).0
    ≢ ok tt
never_committed_twice_example =
    never_committed_twice toy shelf shelf-IsBlockStore start first_block 1 validators
      (signed_greeting 1) (first_block ∷ []) other_block small_nonces (small_nonces, tt)
      two_small_nonces commits (inl refl) (inl refl)

admits : admit toy shelf broken_start first_block 1 validators ≡ ok tt
unfolding verify_commit_quorum Block.hash Block.header_bytes Block.count_valid Block.counts
    Block.sig_verifies precommit_signing_bytes Transaction.decode_address contains eq_bytes decode
    encode put_u64 put_u32 genesis_block Block.compute_merkle_root Block.merkle_root_of admit
admits = refl

takes_txs : (commit_txs toy shelf broken_start.store first_block.transactions).0 ≡ ok tt
unfolding commit_txs take_tx Transaction.verify Transaction.sign Transaction.signing_bytes lookup
    Transaction.decode_address eq_bytes decode put_u64
takes_txs = refl

fails_to_put :
    shelf.put_block (stored_txs toy shelf broken_start first_block) first_block ≡ err failed
unfolding commit_txs take_tx Transaction.verify Transaction.sign Transaction.signing_bytes lookup
    Transaction.decode_address eq_bytes decode put_u64
fails_to_put = refl

failed_put_is_final_example :
    ((commit_block toy shelf broken_start first_block 1 validators).0 ≡ err store_failed)
    × ((commit_block toy shelf
          (commit_block toy shelf broken_start first_block 1 validators).1
          first_block
          1
          validators).0
        ≡ err replayed_nonce)
failed_put_is_final_example =
    failed_put_is_final toy shelf shelf-IsBlockStore broken_start first_block 1 validators
      (signed_greeting 1) [] refl small_nonces admits takes_txs fails_to_put

commit_block-err_example :
    let ch' = (commit_block toy shelf broken_start first_block 1 validators).1 in
    (ch'.tip ≡ 0)
    × (ch'.subs ≡ [])
    × ((h : ℕ) → shelf.get_block ch'.store h ≡ shelf.get_block broken_start.store h)
commit_block-err_example =
    commit_block-err toy shelf shelf-IsBlockStore broken_start first_block 1 validators
      failed_put_is_final_example.0

commit_all-IsLinked_example :
    IsLinked toy shelf 1 validators
      (commit_all toy shelf start 1 validators (first_block ∷ other_block ∷ []))
commit_all-IsLinked_example =
    commit_all-IsLinked toy shelf shelf-IsBlockStore 1 validators start
      (first_block ∷ other_block ∷ []) refl (tt, (tt, tt))
