-- ===== src/Gateway/Server/Serving.antt =====
-- What `GetBlocks` and a stream hand out.
use open_chat.Prelude.{
  ℕ, zero, suc, ◌+◌, ◌%◌, ◌≤◌, ◌≡◌, refl, subst, ◌==◌, split_chain, false, none, some, List, [],
  ◌∷◌, arith, length, count_if, All, Result, ok, Result-cases, inl, inr,
}
use open_chat.Go.Bytes.{Bytes, eq_bytes, eq_bytes_iff}
use open_chat.Go.Int64.{word}
use open_chat.Crypto.{Crypto}
use open_chat.Blockchain.Transaction.{Transaction}
use open_chat.Blockchain.Block.{Block}
use open_chat.Blockchain.Chain.Store.{BlockStore, StoreError}
use open_chat.Gateway.Wire.{BlockPb, block_to_pb, pb_from_tx}
use open_chat.Gateway.Server.{Delivery, deliver, batch_limit, collect_blocks, get_blocks}

abbrev answer : List BlockPb → Result StoreError (List BlockPb)
answer bs = ok bs

module _ (S : BlockStore) where
  -- The blocks are those that the store holds from `h` on, one height after another.
  abbrev pub IsRun : S.State → ℕ → List BlockPb → Type 0
  IsRun s h [] = Unit {0}
  IsRun s h (w ∷ ws) =
      ((b : Block) × (S.get_block s h ≡ ok (some b)) × (block_to_pb b ≡ w))
      × IsRun s ((h + 1) % word) ws

  ok_eq : (bs cs : List BlockPb) → answer bs ≡ answer cs → bs ≡ cs
  ok_eq bs cs e = ground arith

  collect_blocks-IsRun :
      (s : S.State) (room h : ℕ) (bs : List BlockPb)
      → collect_blocks S s room h ≡ ok bs
      → IsRun s h bs × (length bs ≤ room)
  unfolding collect_blocks
  collect_blocks-IsRun s zero h bs e =
      subst (λ l. IsRun s h l × (length l ≤ 0)) (ok_eq [] bs e) (tt, omega arith)
  collect_blocks-IsRun s (suc room) h bs e = elim (Result-cases (S.get_block s h)) [
    | inl (why, bad) ↦ absurd (ground arith)
    | inr (none, gone) ↦
        subst (λ l. IsRun s h l × (length l ≤ suc room))
          (ok_eq [] bs (rw (gone, collect_blocks) at e)) (tt, omega arith)
    | inr (some b, found) ↦
        let (rest, last, more) =
          split_chain _ (collect_blocks S s room ((h + 1) % word))
            (rw (found, collect_blocks) at e) in
        let (run, bound) = collect_blocks-IsRun s room ((h + 1) % word) rest more in
        subst (λ l. IsRun s h l × (length l ≤ suc room)) (ok_eq (block_to_pb b ∷ rest) bs last)
          (((b, found, refl), run), omega arith)
  ]

  -- An answer of `GetBlocks` holds stored blocks, from the height asked for on without a gap, and no
  -- more than 500 nor, where a number is asked for, more than that.
  pub get_blocks-IsRun :
      (s : S.State) (from max_blocks : ℕ) (bs : List BlockPb)
      → get_blocks S s from max_blocks ≡ ok bs
      → IsRun s from bs × (length bs ≤ 500) × ((max_blocks == 0) ≡ false → length bs ≤ max_blocks)
  unfolding get_blocks batch_limit
  get_blocks-IsRun s from max_blocks bs e =
      let (run, bound) = collect_blocks-IsRun s (batch_limit max_blocks) from bs e in
      (run, ground arith, λ asked. ground arith)

module _ (c : Crypto) where
  -- A stream is sent exactly the messages of a block to its address, in their order.
  pub deliver_lem :
      (address : Bytes) (height : ℕ) (txs : List Transaction)
      → All
          (λ (d : Delivery). (d.message.to_address ≡ address) × (d.block_height ≡ height))
          (deliver c address height txs)
        × (length (deliver c address height txs)
            ≡ count_if (λ (tx : Transaction). eq_bytes tx.to address) txs)
  unfolding deliver pb_from_tx
  deliver_lem address height [] = (tt, refl)
  deliver_lem address height (tx ∷ txs) =
      let (sent, size) = deliver_lem address height txs in
      let same = eq_bytes_iff tx.to address in (ground (arith, sent, same), ground (arith, size))
