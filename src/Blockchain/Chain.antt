-- ===== src/Blockchain/Chain.antt =====
-- internal/blockchain/chain.go: the ledger over a block store, and its subscribers.
pub mod Store
pub mod Txs
pub mod Commit
pub mod Nonces
pub mod Linkage
use open_chat.Prelude.{
  ℕ, suc, ◌+◌, ◌%◌, ◌≡◌, Bool, true, false, not, ◌&&◌, Option, none, some, List, [], ◌∷◌, ◌++◌, leb,
  ltb, ◌==◌, if◌then◌else◌, length, map, Result, ok, err,
}
use open_chat.Go.Bytes.{Bytes, eq_bytes}
use open_chat.Go.Int64.{word}
use open_chat.Crypto.{Crypto}
use open_chat.Blockchain.Transaction
use open_chat.Blockchain.Transaction.{Transaction, TxError}
use open_chat.Blockchain.Block
use open_chat.Blockchain.Block.{Block, genesis_block, verify_commit_quorum}
use open_chat.Blockchain.Chain.Store.{BlockStore}

pub record CommitEvent : Type 0 where
  pub height : ℕ
  pub txs : List Transaction

-- A subscriber's channel is what it holds, the oldest event first.
pub record Subscription : Type 0 where
  pub id : ℕ
  pub buffer : List CommitEvent

pub data ChainError : Type 0 where
  store_failed tip_missing out_of_order prev_hash_mismatch insufficient_quorum : ChainError
  replayed_nonce : ChainError
  invalid_tx : TxError → ChainError

abbrev pub channel_capacity : ℕ
channel_capacity = 64

-- `select` with a `default`: a full channel loses the event.
unfoldable pub offer : CommitEvent → Subscription → Subscription
offer ev sub =
    if ltb (length sub.buffer) channel_capacity
    then record sub { buffer = sub.buffer ++ ev ∷ [] }
    else sub

unfoldable pub without : ℕ → List Subscription → List Subscription
without id [] = []
without id (sub ∷ subs) = let rest = without id subs in if sub.id == id then rest else sub ∷ rest

module _ (c : Crypto) (S : BlockStore) where
  open S use {State, put_block, get_block, head, last_nonce, set_last_nonce}

  pub record Chain : Type 0 where
    pub store : State
    pub tip : ℕ
    pub subs : List Subscription
    pub next_id : ℕ

  -- Go drops the error of `GetBlock(0)`, and then writes the genesis block.
  has_genesis : State → Bool
  has_genesis s = elim (get_block s 0) [ ok (some b) ↦ true | _ ↦ false ]

  unfoldable pub new_chain : State → Result ChainError Chain
  unfolding has_genesis
  new_chain s = elim (head s) [
    | err e ↦ err store_failed
    | ok tip ↦
        if tip == 0 && not (has_genesis s)
        then elim (put_block s (genesis_block c)) [
          | err e ↦ err store_failed
          | ok s' ↦ ok (record { store = s'; tip = tip; subs = []; next_id = 0 })
        ]
        else ok (record { store = s; tip = tip; subs = []; next_id = 0 })
  ]

  -- The body of the loop of `CommitBlock`.
  unfoldable pub take_tx : State → Transaction → Result ChainError State
  take_tx s tx = elim (Transaction.verify c tx) [
    | err e ↦ err (invalid_tx e)
    | ok _ ↦ elim (last_nonce s tx.from) [
      | err e ↦ err store_failed
      | ok last ↦
          if leb tx.nonce last
          then err replayed_nonce
          else elim (set_last_nonce s tx.from tx.nonce) [ err e ↦ err store_failed | ok s' ↦ ok s' ]
    ]
  ]

  -- What the loop wrote before an error stays written.
  unfoldable pub commit_txs : State → List Transaction → Result ChainError (Unit {0}) × State
  commit_txs s [] = (ok tt, s)
  commit_txs s (tx ∷ txs) = elim (take_tx s tx) [ err e ↦ (err e, s) | ok s' ↦ commit_txs s' txs ]

  -- The guards of `CommitBlock` in front of its loop, in their order.
  unfoldable pub admit : Chain → Block → ℕ → List Bytes → Result ChainError (Unit {0})
  admit ch b quorum validators = elim (get_block ch.store ch.tip) [
    | err e ↦ err store_failed
    | ok none ↦ err tip_missing
    | ok (some current) ↦
        if not (b.height == (ch.tip + 1) % word)
        then err out_of_order
        else if not (eq_bytes b.prev_hash (Block.hash c current))
        then err prev_hash_mismatch
        else if not (verify_commit_quorum c b quorum validators)
        then err insufficient_quorum
        else ok tt
  ]

  unfoldable pub publish : CommitEvent → List Subscription → List Subscription
  unfolding offer
  publish ev subs = map (offer ev) subs

  -- From `PutBlock` on.
  unfoldable pub append_block : Chain → Block → State → Result ChainError (Unit {0}) × Chain
  append_block ch b s = elim (put_block s b) [
    | err e ↦ (err store_failed, record ch { store = s })
    | ok s' ↦ (
      ok tt,
      record ch {
        store = s';
        tip = b.height;
        subs = publish (record { height = b.height; txs = b.transactions }) ch.subs;
      },
    )
  ]

  unfoldable pub after_txs :
      Chain → Block → Result ChainError (Unit {0}) × State → Result ChainError (Unit {0}) × Chain
  after_txs ch b (err e, s) = (err e, record ch { store = s })
  after_txs ch b (ok _, s) = append_block ch b s

  unfoldable pub commit_block :
      Chain → Block → ℕ → List Bytes → Result ChainError (Unit {0}) × Chain
  commit_block ch b quorum validators = elim (admit ch b quorum validators) [
    | err e ↦ (err e, ch)
    | ok _ ↦ after_txs ch b (commit_txs ch.store b.transactions)
  ]

  unfoldable pub height : Chain → ℕ
  height ch = ch.tip

  unfoldable pub head_block : Chain → Result ChainError Block
  head_block ch = elim (get_block ch.store ch.tip) [
    | err e ↦ err store_failed
    | ok none ↦ err tip_missing
    | ok (some b) ↦ ok b
  ]

  -- The new chain and the subscriber's id, by which `cancel` finds its channel.
  unfoldable pub subscribe : Chain → Chain × ℕ
  subscribe ch = (
    record ch {
      subs = ch.subs ++ record { id = ch.next_id; buffer = [] } ∷ [];
      next_id = suc ch.next_id;
    },
    ch.next_id,
  )

  unfoldable pub cancel : Chain → ℕ → Chain
  unfolding without
  cancel ch id = record ch { subs = without id ch.subs }
