-- ===== src/Gateway/Wire.antt =====
-- internal/grpcserver/convert.go and the messages of internal/grpcserver/pb/messages.go that it
-- fills: the wire forms of transactions and blocks.
use open_chat.Prelude.{
  ℕ, ◌≡◌, refl, ap, List, [], ◌∷◌, arith, length, map, not, ◌==◌, if◌then◌else◌, All, Result, ok,
  err, ◌>>=◌,
}
use open_chat.Go.Bytes.{Bytes}
use open_chat.Blockchain.Transaction.{Transaction, IsTyped}
use open_chat.Blockchain.Block.{Block, ValidatorSig}

pub record SmsRequest : Type 0 where
  pub from_address : Bytes
  pub to_address : Bytes
  pub ciphertext : Bytes
  pub nonce_aead : Bytes
  pub ephemeral_pubkey : Bytes
  pub nonce : ℕ
  pub timestamp : ℕ
  pub signature : Bytes

pub record ValidatorSigPb : Type 0 where
  pub validator : Bytes
  pub round : ℕ
  pub signature : Bytes

pub record BlockPb : Type 0 where
  pub height : ℕ
  pub prev_hash : Bytes
  pub timestamp : ℕ
  pub proposer : Bytes
  pub transactions : List SmsRequest
  pub merkle_root : Bytes
  pub commit_sigs : List ValidatorSigPb

pub data WireError : Type 0 where
  nonce_aead_length ephemeral_pubkey_length : WireError

-- The arrays of the transaction are full, as the lengths were checked.
unfoldable pub tx_from_pb : SmsRequest → Result WireError Transaction
tx_from_pb req =
    if not (length req.nonce_aead == 12)
    then err nonce_aead_length
    else if not (length req.ephemeral_pubkey == 32)
    then err ephemeral_pubkey_length
    else ok (record {
      from = req.from_address;
      to = req.to_address;
      ciphertext = req.ciphertext;
      nonce_aead = req.nonce_aead;
      ephemeral_pubkey = req.ephemeral_pubkey;
      nonce = req.nonce;
      timestamp = req.timestamp;
      signature = req.signature;
    })

unfoldable pub pb_from_tx : Transaction → SmsRequest
pb_from_tx tx = record {
  from_address = tx.from;
  to_address = tx.to;
  ciphertext = tx.ciphertext;
  nonce_aead = tx.nonce_aead;
  ephemeral_pubkey = tx.ephemeral_pubkey;
  nonce = tx.nonce;
  timestamp = tx.timestamp;
  signature = tx.signature;
}

abbrev pub sig_to_pb : ValidatorSig → ValidatorSigPb
sig_to_pb cs = record { validator = cs.validator; round = cs.round; signature = cs.signature }

abbrev pub sig_from_pb : ValidatorSigPb → ValidatorSig
sig_from_pb s = record { validator = s.validator; round = s.round; signature = s.signature }

unfoldable pub block_to_pb : Block → BlockPb
block_to_pb b = record {
  height = b.height;
  prev_hash = b.prev_hash;
  timestamp = b.timestamp;
  proposer = b.proposer;
  transactions = map pb_from_tx b.transactions;
  merkle_root = b.merkle_root;
  commit_sigs = map sig_to_pb b.commit_sigs;
}

-- The first transaction that does not convert ends the loop.
unfoldable pub txs_from_pb : List SmsRequest → Result WireError (List Transaction)
txs_from_pb [] = ok []
txs_from_pb (t ∷ ts) = do tx ← tx_from_pb t; txs ← txs_from_pb ts; ok (tx ∷ txs)

unfoldable pub block_from_pb : BlockPb → Result WireError Block
block_from_pb bp = do
  txs ← txs_from_pb bp.transactions
  ok (record {
    height = bp.height;
    prev_hash = bp.prev_hash;
    timestamp = bp.timestamp;
    proposer = bp.proposer;
    transactions = txs;
    merkle_root = bp.merkle_root;
    commit_sigs = map sig_from_pb bp.commit_sigs;
  })

pub tx_from_pb-pb_from_tx : (tx : Transaction) → IsTyped tx → tx_from_pb (pb_from_tx tx) ≡ ok tx
unfolding tx_from_pb pb_from_tx
tx_from_pb-pb_from_tx tx typed = ground (arith, typed.nonce_aead_len, typed.ephemeral_len)

txs_from_pb-map :
    (txs : List Transaction) → All IsTyped txs → txs_from_pb (map pb_from_tx txs) ≡ ok txs
unfolding txs_from_pb
txs_from_pb-map [] typed = refl
txs_from_pb-map (tx ∷ txs) typed =
    rw (tx_from_pb-pb_from_tx tx typed.0) (rw (txs_from_pb-map txs typed.1) refl)

map-sig_from_pb : (sigs : List ValidatorSig) → map sig_from_pb (map sig_to_pb sigs) ≡ sigs
map-sig_from_pb [] = refl
map-sig_from_pb (cs ∷ sigs) = ap (λ (rest : List ValidatorSig). cs ∷ rest) (map-sig_from_pb sigs)

-- A block whose transactions have their Go types comes back from its wire form as it was.
pub block_from_pb-block_to_pb :
    (b : Block) → All IsTyped b.transactions → block_from_pb (block_to_pb b) ≡ ok b
unfolding block_from_pb block_to_pb
block_from_pb-block_to_pb b typed =
    rw (txs_from_pb-map b.transactions typed) (rw (map-sig_from_pb b.commit_sigs) refl)

-- A request that converts is the wire form of its transaction, which has its Go lengths.
pub tx_from_pb-exact :
    (req : SmsRequest) (tx : Transaction)
    → tx_from_pb req ≡ ok tx
    → (pb_from_tx tx ≡ req) × (length tx.nonce_aead ≡ 12) × (length tx.ephemeral_pubkey ≡ 32)
unfolding tx_from_pb pb_from_tx
tx_from_pb-exact req tx h = (ground arith, ground arith, ground arith)
