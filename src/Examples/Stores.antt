-- ===== src/Examples/Stores.antt =====
-- The block store over a database in memory.
use open_chat.Prelude.{◌≡◌, refl, some, [], ◌∷◌, arith, Result, ok}
use open_chat.Go.Bytes.{Bytes, eq_bytes, codes}
use open_chat.Go.BigEndian.{put_u64, uint64}
use open_chat.Go.Map.{Map, lookup, insert, lookup-insert}
use open_chat.Blockchain.Block.{Block}
use open_chat.Blockchain.Chain.Store.{StoreError, IsBlockStore}
use open_chat.Storage.{
  Badger, BlockJson, store, head, put_block, block_key, key_head, read_u64, advance_head,
}
use open_chat.Storage.Laws.{RoundTrips, store-IsBlockStore}

abbrev pub good : Map Bytes → Result StoreError (Map Bytes)
good t = ok t

pub ok_inj : (t u : Map Bytes) → good t ≡ good u → t ≡ u
ok_inj t u e = ground arith

-- A transaction is a copy of the database.
abbrev pub memory : Badger
memory = record {
  Db = Map Bytes;
  Txn = Map Bytes;
  begin = λ db. db;
  set = λ t k v. ok (insert t k v);
  get = λ t k. ok (lookup t k);
  commit = λ t. ok t;
  get-set = λ t k v j e. ground (arith, lookup-insert t k j v, ok_inj (insert t k v) _ e);
  get-commit = λ t j e. ground (arith, ok_inj t _ e);
}

abbrev tenth : Block
tenth = record {
  height = 10;
  prev_hash = [];
  timestamp = 0;
  proposer = [];
  transactions = [];
  merkle_root = [];
  commit_sigs = [];
}

-- A text for one block.
abbrev one_text : BlockJson
one_text = record { marshal = λ b. some (codes "{}"); unmarshal = λ text. some tenth }

store-IsBlockStore_example : IsBlockStore (store memory one_text) (RoundTrips one_text)
store-IsBlockStore_example = store-IsBlockStore memory one_text

abbrev with_head : Map Bytes
with_head = (key_head, put_u64 4) ∷ []

abbrev after_put : Map Bytes
after_put = (key_head, put_u64 10) ∷ (block_key 10, codes "{}") ∷ []

head_is_four : head memory one_text with_head ≡ ok 4
unfolding head lookup read_u64 uint64 put_u64 eq_bytes
head_is_four = refl

puts : put_block memory one_text with_head tenth ≡ ok after_put
unfolding put_block insert lookup read_u64 uint64 put_u64 eq_bytes block_key advance_head
puts = refl
