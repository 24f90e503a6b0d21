-- ===== src/Blockchain/Chain/Store.antt =====
-- The port `BlockStore` of internal/blockchain/chain.go: what the ledger asks of its persistence.
use open_chat.Prelude.{ℕ, ◌≡◌, Option, some, ◌==◌, leb, if◌then◌else◌, Result, ok}
use open_chat.Go.Bytes.{Bytes, eq_bytes}
use open_chat.Go.Int64.{IsWord}
use open_chat.Blockchain.Block.{Block}

-- `panicked` stands for `binary.BigEndian.Uint64` on a value of fewer than eight bytes.
pub data StoreError : Type 0 where
  failed panicked : StoreError

-- A method that writes returns the new state, or an error and nothing written.
pub record BlockStore : Type 1 where
  pub State : Type 0
  pub put_block : State → Block → Result StoreError State
  pub get_block : State → ℕ → Result StoreError (Option Block)
  pub head : State → Result StoreError ℕ
  pub last_nonce : State → Bytes → Result StoreError ℕ
  pub set_last_nonce : State → Bytes → ℕ → Result StoreError State

-- What a write changes. `Storable` are the blocks that the encoding gives back as they are.
pub record IsBlockStore (S : BlockStore) (Storable : Block → Type 0) : Type 0 where
  pub get_block-put_block :
      (s : S.State) (b : Block) (h : ℕ) {s' : S.State}
      → Storable b
      → IsWord b.height
      → IsWord h
      → S.put_block s b ≡ ok s'
      → S.get_block s' h ≡ (if b.height == h then ok (some b) else S.get_block s h)
  pub head-put_block :
      (s : S.State) (b : Block) (old : ℕ) {s' : S.State}
      → IsWord b.height
      → S.head s ≡ ok old
      → S.put_block s b ≡ ok s'
      → S.head s' ≡ ok (if leb old b.height then b.height else old)
  pub last_nonce-put_block :
      (s : S.State) (b : Block) (a : Bytes) {s' : S.State}
      → S.put_block s b ≡ ok s'
      → S.last_nonce s' a ≡ S.last_nonce s a
  pub last_nonce-set_last_nonce :
      (s : S.State) (a : Bytes) (n : ℕ) (k : Bytes) {s' : S.State}
      → IsWord n
      → S.set_last_nonce s a n ≡ ok s'
      → S.last_nonce s' k ≡ (if eq_bytes a k then ok n else S.last_nonce s k)
  pub get_block-set_last_nonce :
      (s : S.State) (a : Bytes) (n h : ℕ) {s' : S.State}
      → S.set_last_nonce s a n ≡ ok s'
      → S.get_block s' h ≡ S.get_block s h
  pub head-set_last_nonce :
      (s : S.State) (a : Bytes) (n : ℕ) {s' : S.State}
      → S.set_last_nonce s a n ≡ ok s'
      → S.head s' ≡ S.head s
