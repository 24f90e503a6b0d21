-- ===== src/Storage.antt =====
-- internal/storage/store.go: the block store over BadgerDB. The database and `encoding/json` are
-- parameters, with the documented behaviour of a transaction and no more. `get` reads an item with
-- its value; that the value of a found item cannot be read is not modelled.
pub mod Keys
pub mod Laws
use open_chat.Prelude.{
  ℕ, ◌≡◌, Bool, Option, none, some, ◌++◌, leb, if◌then◌else◌, Result, ok, err, ◌>>=◌,
}
use open_chat.Go.Bytes.{Bytes, codes, eq_bytes}
use open_chat.Go.BigEndian.{put_u64, uint64}
use open_chat.Blockchain.Block.{Block}
use open_chat.Blockchain.Chain.Store.{StoreError, failed, panicked, BlockStore}

-- Transactions of BadgerDB: reads see the transaction's own writes, and `commit` makes all of its
-- writes visible or none. A missing key is `ok none`.
pub record Badger : Type 1 where
  pub Db : Type 0
  pub Txn : Type 0
  pub begin : Db → Txn
  pub set : Txn → Bytes → Bytes → Result StoreError Txn
  pub get : Txn → Bytes → Result StoreError (Option Bytes)
  pub commit : Txn → Result StoreError Db
  pub get-set :
      (t : Txn) (k v j : Bytes) {t' : Txn}
      → set t k v ≡ ok t'
      → get t' j ≡ (if eq_bytes k j then ok (some v) else get t j)
  pub get-commit : (t : Txn) (j : Bytes) {db : Db} → commit t ≡ ok db → get (begin db) j ≡ get t j

-- `json.Marshal` and `json.Unmarshal` at blocks; `none` is an error.
pub record BlockJson : Type 0 where
  pub marshal : Block → Option Bytes
  pub unmarshal : Bytes → Option Block

unfoldable pub block_key : ℕ → Bytes
block_key height = codes "blk:" ++ put_u64 height

unfoldable pub nonce_key : Bytes → Bytes
nonce_key address = codes "nnc:" ++ address

abbrev pub key_head : Bytes
key_head = codes "head"

-- The number in a value; a missing key counts as 0.
unfoldable pub read_u64 : Option Bytes → Result StoreError ℕ
read_u64 none = ok 0
read_u64 (some v) = elim (uint64 v) [ none ↦ err panicked | some n ↦ ok n ]

abbrev pub or_failed : {A : Type 0} → Option A → Result StoreError A
or_failed none = err failed
or_failed (some a) = ok a

module _ (B : Badger) (J : BlockJson) where
  open B use {Db, Txn, begin, set, get, commit}

  -- The last part of `PutBlock`: the head moves unless it is higher already.
  unfoldable pub advance_head : Txn → ℕ → ℕ → Result StoreError Txn
  advance_head t height current =
      if leb current height then set t key_head (put_u64 height) else ok t

  unfoldable pub put_block : Db → Block → Result StoreError Db
  unfolding advance_head
  put_block db b = do
    text ← or_failed (J.marshal b)
    t ← set (begin db) (block_key b.height) text
    stored ← get t key_head
    current ← read_u64 stored
    t' ← advance_head t b.height current
    commit t'

  unfoldable pub decode_block : Option Bytes → Result StoreError (Option Block)
  decode_block none = ok none
  decode_block (some v) = elim (J.unmarshal v) [ none ↦ err failed | some b ↦ ok (some b) ]

  unfoldable pub get_block : Db → ℕ → Result StoreError (Option Block)
  get_block db height = do v ← get (begin db) (block_key height); decode_block v

  unfoldable pub head : Db → Result StoreError ℕ
  head db = do v ← get (begin db) key_head; read_u64 v

  unfoldable pub last_nonce : Db → Bytes → Result StoreError ℕ
  last_nonce db address = do v ← get (begin db) (nonce_key address); read_u64 v

  unfoldable pub set_last_nonce : Db → Bytes → ℕ → Result StoreError Db
  set_last_nonce db address nonce = do
    t ← set (begin db) (nonce_key address) (put_u64 nonce)
    commit t

  -- `var _ blockchain.BlockStore = (*Store)(nil)`
  abbrev pub store : BlockStore
  store = record {
    State = Db;
    put_block = put_block;
    get_block = get_block;
    head = head;
    last_nonce = last_nonce;
    set_last_nonce = set_last_nonce;
  }
