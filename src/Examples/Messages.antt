-- ===== src/Examples/Messages.antt =====
-- Transactions, headers, Merkle roots and clocks at concrete values.
use open_chat.Prelude.{◌+◌, ◌*◌, ◌^◌, ◌<◌, ◌≡◌, refl, ◌∷◌, [], List, arith, false, ok}
use open_chat.Go.Bytes.{codes}
use open_chat.Go.Int64.{is_stale, distance, is_stale_wraps}
use open_chat.Crypto.{toy}
use open_chat.Blockchain.Transaction
use open_chat.Blockchain.Transaction.{Transaction, signing_bytes, decode_address}
use open_chat.Blockchain.Transaction.SigningBytes.{longer_to, longer_ciphertext, shifted_recipient}
use open_chat.Blockchain.Block.{Block, merkle_root_of, header_bytes}
use open_chat.Blockchain.Block.Merkle.{merkle_root_doubled}
use open_chat.Examples.Toys.{alice, alice_key, greeting, signed_greeting}

greeting-IsTyped : Transaction.IsTyped (greeting 1)
greeting-IsTyped = record {
  nonce_aead_len = refl;
  ephemeral_len = refl;
  nonce_word = omega arith;
  timestamp_word = omega arith;
}

signed-IsTyped : Transaction.IsTyped (signed_greeting 1)
unfolding Transaction.sign
signed-IsTyped = record {
  nonce_aead_len = refl;
  ephemeral_len = refl;
  nonce_word = omega arith;
  timestamp_word = omega arith;
}

shifted_recipient_example :
    (Transaction.verify toy (longer_to (greeting 1) (codes "x"))
      ≡ Transaction.verify toy (longer_ciphertext (greeting 1) (codes "x")))
    × (Transaction.hash toy (longer_to (greeting 1) (codes "x"))
        ≡ Transaction.hash toy (longer_ciphertext (greeting 1) (codes "x")))
shifted_recipient_example = shifted_recipient toy (greeting 1) (codes "x")

alice_decodes : decode_address (greeting 1).from ≡ ok (toy.public_key alice_key)
unfolding decode_address open_chat.Go.Hex.decode
alice_decodes = refl

merkle_root_doubled_example :
    merkle_root_of toy (greeting 1 ∷ greeting 2 ∷ greeting 3 ∷ [])
    ≡ merkle_root_of toy (greeting 1 ∷ greeting 2 ∷ greeting 3 ∷ greeting 3 ∷ [])
merkle_root_doubled_example =
    merkle_root_doubled toy (greeting 1 ∷ greeting 2 ∷ []) (greeting 3) (omega arith) refl

abbrev header : List Transaction → Block
header txs = record {
  height = 3;
  prev_hash = codes "ab";
  timestamp = 9;
  proposer = alice;
  transactions = txs;
  merkle_root = codes "cd";
  commit_sigs = [];
}

same_headers : header_bytes (header []) ≡ header_bytes (header (greeting 1 ∷ []))
unfolding header_bytes
same_headers = refl

near : distance 500000 100 < 2 ^ 43
near = omega arith

is_stale_wraps_example : is_stale 1700000000000 (1700000000000 + 3 * 2 ^ 58) 120000000000 ≡ false
is_stale_wraps_example = is_stale_wraps 1700000000000 3 120000000000 (omega arith) (omega arith)
