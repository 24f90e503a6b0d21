-- ===== src/Blockchain/Block/Header.antt =====
-- What the header, and so the hash and the votes over it, say of a block.
use open_chat.Prelude.{◌≡◌, refl, List, arith, length, append_inj}
use open_chat.Go.BigEndian.{put_u64, put_u64_inj, length-put_u64}
use open_chat.Go.Int64.{IsWord}
use open_chat.Crypto.{Crypto}
use open_chat.Blockchain.Transaction.{Transaction}
use open_chat.Blockchain.Block.{Block, ValidatorSig, header_bytes, hash}

pub record SameHeader (a b : Block) : Type 0 where
  pub height : a.height ≡ b.height
  pub prev_hash : a.prev_hash ≡ b.prev_hash
  pub timestamp : a.timestamp ≡ b.timestamp
  pub proposer : a.proposer ≡ b.proposer
  pub merkle_root : a.merkle_root ≡ b.merkle_root

abbrev pub IsTyped : Block → Type 0
IsTyped b = IsWord b.height × IsWord b.timestamp

-- Blocks whose previous hashes have one length, and whose proposers have one length, have equal
-- header bytes only if height, previous hash, timestamp, proposer and Merkle root are equal.
pub header_bytes_inj :
    (a b : Block)
    → IsTyped a
    → IsTyped b
    → length a.prev_hash ≡ length b.prev_hash
    → length a.proposer ≡ length b.proposer
    → header_bytes a ≡ header_bytes b
    → SameHeader a b
unfolding header_bytes
header_bytes_inj a b ha hb lp lq e =
    let (e1, r1) =
      append_inj (put_u64 a.height) _ (put_u64 b.height) _
        (omega (arith, length-put_u64 a.height, length-put_u64 b.height)) e in
    let (e2, r2) = append_inj a.prev_hash _ b.prev_hash _ lp r1 in
    let (e3, r3) =
      append_inj (put_u64 a.timestamp) _ (put_u64 b.timestamp) _
        (omega (arith, length-put_u64 a.timestamp, length-put_u64 b.timestamp)) r2 in
    let (e4, r4) = append_inj a.proposer _ b.proposer _ lq r3 in
    record {
      height = put_u64_inj a.height b.height ha.0 hb.0 e1;
      prev_hash = e2;
      timestamp = put_u64_inj a.timestamp b.timestamp ha.1 hb.1 e3;
      proposer = e4;
      merkle_root = r4;
    }

-- The hash reads neither the transactions nor the commit signatures.
pub hash-with :
    (c : Crypto) (b : Block) (txs : List Transaction) (sigs : List ValidatorSig)
    → hash c (record b { transactions = txs; commit_sigs = sigs }) ≡ hash c b
unfolding hash header_bytes
hash-with c b txs sigs = refl
