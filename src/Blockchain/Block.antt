-- ===== src/Blockchain/Block.antt =====
-- internal/blockchain/block.go: blocks, their header and hash, the Merkle root and the quorum check.

pub mod Merkle
pub mod Quorum
pub mod Header
use open_chat.Prelude.{
  ℕ, zero, suc, ◌+◌, ◌/◌, ◌%◌, ◌≡◌, Bool, true, false, List, [], ◌∷◌, ◌++◌, map, ltb, leb, ◌==◌,
  if◌then◌else◌, length, Result, ok, err,
}
use open_chat.Go.Bytes.{Bytes, codes}
use open_chat.Go.BigEndian.{put_u64, put_u32}
use open_chat.Go.Hex.{encode}
use open_chat.Go.Map.{contains}
use open_chat.Crypto.{Crypto}
use open_chat.Blockchain.Transaction
use open_chat.Blockchain.Transaction.{Transaction, decode_address}

pub record ValidatorSig : Type 0 where
  pub validator : Bytes
  pub round : ℕ
  pub signature : Bytes

pub record Block : Type 0 where
  pub height : ℕ
  pub prev_hash : Bytes
  pub timestamp : ℕ
  pub proposer : Bytes
  pub transactions : List Transaction
  pub merkle_root : Bytes
  pub commit_sigs : List ValidatorSig

abbrev pub vote_precommit_type : ℕ
vote_precommit_type = 2

unfoldable pub precommit_signing_bytes : ℕ → ℕ → Bytes → Bytes
precommit_signing_bytes height round hash =
    vote_precommit_type ∷ (put_u64 height ++ (put_u32 round ++ hash))

unfoldable pub header_bytes : Block → Bytes
header_bytes b =
    put_u64 b.height ++ (b.prev_hash ++ (put_u64 b.timestamp ++ (b.proposer ++ b.merkle_root)))

-- `layer = append(layer, layer[len(layer)-1])` on an odd layer.
unfoldable pub append_last : List Bytes → List Bytes
append_last [] = []
append_last (x ∷ []) = x ∷ x ∷ []
append_last (x ∷ y ∷ rest) = x ∷ append_last (y ∷ rest)

unfoldable pub pad : List Bytes → List Bytes
pad layer = if length layer % 2 == 1 then append_last layer else layer

abbrev pub first_or : Bytes → List Bytes → Bytes
first_or d [] = d
first_or d (x ∷ xs) = x

module _ (c : Crypto) where
  unfoldable pub hash : Block → Bytes
  hash b = encode (c.sha256 (header_bytes b))

  -- The inner loop: `i` and `i+1` are hashed together.
  unfoldable pub pair_up : List Bytes → List Bytes
  pair_up [] = []
  pair_up (x ∷ []) = []
  pair_up (x ∷ y ∷ rest) = c.sha256 (x ++ y) ∷ pair_up rest

  -- `for len(layer) > 1`; each round halves the layer, so its length is fuel enough.
  unfoldable pub merkle_loop : ℕ → List Bytes → List Bytes
  merkle_loop zero layer = layer
  merkle_loop (suc fuel) layer =
      let next = merkle_loop fuel (pair_up (pad layer)) in
      if ltb 1 (length layer) then next else layer

  abbrev pub leaf : Transaction → Bytes
  leaf tx = c.sha256 (Transaction.hash c tx)

  unfoldable pub merkle_root_of : List Transaction → Bytes
  merkle_root_of [] = encode (c.sha256 [])
  merkle_root_of (tx ∷ txs) =
      let layer = map leaf (tx ∷ txs) in encode (first_or [] (merkle_loop (length layer) layer))

  unfoldable pub compute_merkle_root : Block → Block
  compute_merkle_root b = record b { merkle_root = merkle_root_of b.transactions }

  -- `ed25519.Verify` on the rebuilt bytes of the vote, once the address is decoded.
  unfoldable pub sig_verifies : ℕ → Bytes → ValidatorSig → Bool
  sig_verifies height block_hash cs = elim (decode_address cs.validator) [
    | err e ↦ false
    | ok pub_key ↦
        c.verify pub_key (precommit_signing_bytes height cs.round block_hash) cs.signature
  ]

  -- One round of the loop counts its signature, or goes on with `continue`.
  unfoldable pub counts : ℕ → Bytes → List Bytes → List Bytes → ValidatorSig → Bool
  counts height block_hash validators seen cs =
      if contains seen cs.validator
      then false
      else if contains validators cs.validator
      then sig_verifies height block_hash cs
      else false

  -- `valid` at the end of the loop, from the addresses seen and the count so far.
  unfoldable pub count_valid : ℕ → Bytes → List Bytes → List Bytes → ℕ → List ValidatorSig → ℕ
  count_valid height block_hash validators seen valid [] = valid
  count_valid height block_hash validators seen valid (cs ∷ rest) =
      let counted = counts height block_hash validators seen cs in
      count_valid height block_hash validators (if counted then cs.validator ∷ seen else seen)
        (if counted then valid + 1 else valid) rest

  unfoldable pub verify_commit_quorum : Block → ℕ → List Bytes → Bool
  verify_commit_quorum b quorum validators =
      if ltb (length b.commit_sigs) quorum
      then false
      else leb quorum (count_valid b.height (hash b) validators [] 0 b.commit_sigs)

  unfoldable pub genesis_block : Block
  unfolding compute_merkle_root
  genesis_block = compute_merkle_root (record {
    height = 0;
    prev_hash = [];
    timestamp = 0;
    proposer = codes "genesis";
    transactions = [];
    merkle_root = [];
    commit_sigs = [];
  })
