-- ===== src/Storage/Keys.antt =====
-- The keys of the store: one for each height and for each address, and none is another's.
use open_chat.Prelude.{ℕ, ◌≡◌, refl, false, ◌==◌, arith}
use open_chat.Go.Bytes.{Bytes, eq_bytes, eq_bytes_iff}
use open_chat.Go.BigEndian.{put_u64_inj}
use open_chat.Go.Int64.{IsWord}
use open_chat.Storage.{block_key, nonce_key, key_head}

pub eq-block_key : (h k : ℕ) → IsWord h → IsWord k → eq_bytes (block_key h) (block_key k) ≡ (h == k)
unfolding block_key
eq-block_key h k hw kw =
    ground (arith, eq_bytes_iff (block_key h) (block_key k), put_u64_inj h k hw kw)

pub eq-nonce_key : (a b : Bytes) → eq_bytes (nonce_key a) (nonce_key b) ≡ eq_bytes a b
unfolding nonce_key eq_bytes
eq-nonce_key a b = refl

pub eq-block_key-nonce_key : (h : ℕ) (a : Bytes) → eq_bytes (block_key h) (nonce_key a) ≡ false
unfolding block_key nonce_key eq_bytes
eq-block_key-nonce_key h a = refl

pub eq-nonce_key-block_key : (a : Bytes) (h : ℕ) → eq_bytes (nonce_key a) (block_key h) ≡ false
unfolding block_key nonce_key eq_bytes
eq-nonce_key-block_key a h = refl

pub eq-key_head-block_key : (h : ℕ) → eq_bytes key_head (block_key h) ≡ false
unfolding block_key eq_bytes
eq-key_head-block_key h = refl

pub eq-key_head-nonce_key : (a : Bytes) → eq_bytes key_head (nonce_key a) ≡ false
unfolding nonce_key eq_bytes
eq-key_head-nonce_key a = refl

pub eq-block_key-key_head : (h : ℕ) → eq_bytes (block_key h) key_head ≡ false
unfolding block_key eq_bytes
eq-block_key-key_head h = refl

pub eq-nonce_key-key_head : (a : Bytes) → eq_bytes (nonce_key a) key_head ≡ false
unfolding nonce_key eq_bytes
eq-nonce_key-key_head a = refl
