-- ===== src/Examples/Syncs.antt =====
-- The history of a wallet, and a sync of the app, with a gateway whose store over the database in
-- memory holds two blocks, the second with a letter.
use open_chat.Prelude.{
  ℕ, ◌≡◌, refl, some, none, Option, List, [], ◌∷◌, arith, ◌==◌, if◌then◌else◌, ok,
}
use open_chat.Go.Bytes.{Bytes, eq_bytes}
use open_chat.Go.BigEndian.{put_u64, uint64}
use open_chat.Go.Map.{Map, lookup, insert}
use open_chat.Crypto.{Crypto, toy}
use open_chat.Blockchain.Transaction.{Transaction}
use open_chat.Blockchain.Block.{Block}
use open_chat.Blockchain.Chain.Store.{BlockStore}
use open_chat.Storage.{
  BlockJson, store, put_block, get_block, decode_block, block_key, key_head, read_u64, advance_head,
}
use open_chat.Storage.Laws.{store-IsBlockStore}
use open_chat.Gateway.Wire.{BlockPb, block_to_pb}
use open_chat.Client.History.{scan_blocks, fetch_history}
use open_chat.Client.History.Catching.{caught}
use open_chat.Client.History.Stored.{
  IsHeld, store_gateways, fetch_history-get_blocks, put_block-IsHeld,
}
use open_chat.App.Chats.{contacts}
use open_chat.App.Chats.Saving.{ChatStore}
use open_chat.App.Service.{known_keys, sync_history}
use open_chat.App.Service.Recovery.{IsSynced, AreKept, sync_history-IsSynced}
use open_chat.Examples.Keyrings.{sums, ben}
use open_chat.Examples.Stores.{memory}
use open_chat.Examples.Clients.{letter, no_keys}
use open_chat.Examples.Apps.{some_chats, one_file, chats_json}

abbrev block_at : ℕ → List Transaction → Block
block_at height txs = record {
  height = height;
  prev_hash = [];
  timestamp = 0;
  proposer = [];
  transactions = txs;
  merkle_root = [];
  commit_sigs = [];
}

abbrev first : Block
first = block_at 0 []

abbrev second : Block
second = block_at 1 (letter ∷ [])

abbrev two_blocks : List Block
two_blocks = first ∷ second ∷ []

-- The text of a block is its height.
abbrev read_text : Bytes → Option Block
read_text [] = none
read_text (height ∷ _) = if height == 0 then some first else some second

abbrev two_texts : BlockJson
two_texts = record { marshal = λ b. some (b.height ∷ []); unmarshal = read_text }

abbrev disk : BlockStore
disk = store memory two_texts

abbrev one_put : Map Bytes
one_put = (block_key 0, 0 ∷ []) ∷ (key_head, put_u64 0) ∷ []

abbrev both_put : Map Bytes
both_put = (block_key 0, 0 ∷ []) ∷ (key_head, put_u64 1) ∷ (block_key 1, 1 ∷ []) ∷ []

puts_first : put_block memory two_texts [] first ≡ ok one_put
unfolding put_block insert lookup read_u64 uint64 put_u64 eq_bytes block_key advance_head
puts_first = refl

puts_second : put_block memory two_texts one_put second ≡ ok both_put
unfolding put_block insert lookup read_u64 uint64 put_u64 eq_bytes block_key advance_head
puts_second = refl

nothing_held : IsHeld disk [] []
unfolding get_block lookup decode_block
nothing_held = λ h fits. refl

both_held : IsHeld disk both_put two_blocks
both_held =
    let laws = store-IsBlockStore memory two_texts in
    put_block-IsHeld disk laws one_put both_put (first ∷ []) second
      (put_block-IsHeld disk laws [] one_put [] first nothing_held (omega arith)
        (0 ∷ [], refl, refl) refl puts_first)
      (omega arith) (1 ∷ [], refl, refl) refl puts_second

abbrev last_block : List BlockPb
last_block = block_to_pb second ∷ []

fetch_history-get_blocks_example :
    (fetch_history toy sums ben (store_gateways disk both_put) 2 0 1 no_keys
      ≡ caught (scan_blocks toy sums ben last_block 1 no_keys))
    × ((scan_blocks toy sums ben last_block 1 no_keys).0 ≡ 2)
unfolding block_to_pb
fetch_history-get_blocks_example =
    fetch_history-get_blocks disk both_put two_blocks toy sums ben (block_to_pb first ∷ [])
      last_block no_keys both_held refl (refl, (refl, tt)) (omega arith)

abbrev marked : Crypto
marked = record toy { sha256 = λ m. 0 ∷ m }

-- The app has seen the first block.
abbrev behind : ChatStore one_file chats_json
behind = record { chats = record some_chats { synced_height = 1 }; disk = none }

sync_history-IsSynced_example :
    IsSynced one_file chats_json 2
      (sync_history one_file chats_json marked sums
        (λ less l. l)
        (store_gateways disk both_put)
        2
        ben
        behind).0
      (sync_history one_file chats_json marked sums
        (λ less l. l)
        (store_gateways disk both_put)
        2
        ben
        behind).1
    × AreKept
        (scan_blocks marked sums ben last_block 1
          (some (known_keys (contacts (λ less l. l) behind.chats) []))).1.events
        (sync_history one_file chats_json marked sums
          (λ less l. l)
          (store_gateways disk both_put)
          2
          ben
          behind).1.chats
unfolding block_to_pb
sync_history-IsSynced_example =
    sync_history-IsSynced one_file chats_json marked sums disk both_put two_blocks (λ less l. l) ben
      behind (block_to_pb first ∷ []) last_block (λ m e. absurd cc) both_held refl refl
      (refl, (refl, tt)) (omega arith)
