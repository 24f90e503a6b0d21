-- ===== src/Consensus/Vote.antt =====
-- Votes: internal/consensus/types.go, and the address and signature helpers of util.go.
use open_chat.Prelude.{
  ℕ, zero, suc, ◌/◌, ◌%◌, ◌≡◌, Bool, false, Option, none, some, [], ◌∷◌, ◌++◌, ◌==◌, if◌then◌else◌,
  arith, length,
}
use open_chat.Go.Bytes.{Bytes}
use open_chat.Go.BigEndian.{put_u64, put_u32}
use open_chat.Go.Hex.{decode}
use open_chat.Crypto.{Crypto}
use open_chat.Blockchain.Transaction.{decode_address}
use open_chat.Blockchain.Block.{precommit_signing_bytes, sig_verifies}

-- A `uint8` of which the code names two values.
pub data VoteType : Type 0 where
  prevote precommit : VoteType
  other : ℕ → VoteType

-- `iota + 1`
abbrev pub type_byte : VoteType → ℕ
type_byte prevote = 1
type_byte precommit = 2
type_byte (other n) = n

pub record Vote : Type 0 where
  pub type : VoteType
  pub height : ℕ
  pub round : ℕ
  pub block_hash : Bytes
  pub voter : Bytes
  pub signature : Bytes

-- `for i := n-1; i >= 0; i-- { t[i] = byte(v); v >>= 8 }`, with what stands behind already.
unfoldable pub fill : ℕ → ℕ → Bytes → Bytes
fill zero v behind = behind
fill (suc i) v behind = fill i (v / 256) ((v % 256) ∷ behind)

unfoldable pub append_u64 : Bytes → ℕ → Bytes
unfolding fill
append_u64 b v = b ++ fill 8 v []

unfoldable pub append_u32 : Bytes → ℕ → Bytes
unfolding fill
append_u32 b v = b ++ fill 4 v []

unfoldable pub signing_bytes : Vote → Bytes
unfolding append_u64 append_u32
signing_bytes v = append_u32 (append_u64 (type_byte v.type ∷ []) v.height) v.round ++ v.block_hash

unfoldable pub hex_decode_pubkey : Bytes → Option Bytes
hex_decode_pubkey addr = elim (decode addr) [
  | none ↦ none
  | some b ↦ if length b == 32 then some b else none
]

module _ (c : Crypto) where
  unfoldable pub sign : Vote → Bytes → Vote
  sign v priv = record v { signature = c.sign priv (signing_bytes v) }

  unfoldable pub verify : Vote → Bool
  verify v = elim (hex_decode_pubkey v.voter) [
    | none ↦ false
    | some pub_key ↦ c.verify pub_key (signing_bytes v) v.signature
  ]

-- The hand-written loops write what `binary.BigEndian` writes.
pub append_u64-eq-put_u64 : (b : Bytes) (v : ℕ) → append_u64 b v ≡ b ++ put_u64 v
unfolding append_u64 put_u64
append_u64-eq-put_u64 b v = ground arith

pub append_u32-eq-put_u32 : (b : Bytes) (v : ℕ) → append_u32 b v ≡ b ++ put_u32 v
unfolding append_u32 put_u32
append_u32-eq-put_u32 b v = ground arith

-- What a validator signs for a precommit is what the ledger rebuilds from a commit signature.
pub precommit_bytes_agree :
    (v : Vote)
    → v.type ≡ precommit
    → signing_bytes v ≡ precommit_signing_bytes v.height v.round v.block_hash
unfolding signing_bytes precommit_signing_bytes put_u64 put_u32
precommit_bytes_agree v h = ground arith

-- The ledger's check of a commit signature and the engine's check of the precommit vote that it
-- was taken from give one answer.
pub sig_verifies-verify :
    (c : Crypto) (v : Vote)
    → v.type ≡ precommit
    → sig_verifies c v.height v.block_hash
        (record { validator = v.voter; round = v.round; signature = v.signature })
      ≡ verify c v
unfolding sig_verifies verify decode_address hex_decode_pubkey
sig_verifies-verify c v h = ground (arith, precommit_bytes_agree v h)
