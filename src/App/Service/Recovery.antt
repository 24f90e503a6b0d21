-- ===== src/App/Service/Recovery.antt =====
-- What a sync of the history brings into the store of the app.
use open_chat.Prelude.{
  ℕ, suc, ◌<◌, ◌≡◌, ◌≢◌, refl, ap, sym, ◌∙◌, Bool, true, some, List, [], ◌∷◌, ◌++◌, length, map,
  All, All-append, All-mono, Result, ok, err, Bool-cases, Option-cases, Result-cases, inl, inr,
}
use open_chat.Go.Bytes.{Bytes, eq_bytes}
use open_chat.Go.Int64.{word}
use open_chat.Go.Hex.{encode_ne}
use open_chat.Crypto.{Crypto}
use open_chat.Blockchain.Transaction
use open_chat.Blockchain.Block.{Block}
use open_chat.Blockchain.Chain.Store.{BlockStore}
use open_chat.Gateway.Wire.{SmsRequest, BlockPb, block_to_pb}
use open_chat.Client.Primitives.{Primitives}
use open_chat.Client.Wallet
use open_chat.Client.Wallet.{Wallet}
use open_chat.Client.Envelope.{tx_hash_from_pb, decrypt_incoming, decrypt_outgoing}
use open_chat.Client.History.{
  HistoryEvent, Known, known_key, scan_incoming, scan_outgoing, scan_tx, scan_txs, scan_blocks,
  caught_up, fetch_history,
}
use open_chat.Client.History.Scanning.{IsNumbered}
use open_chat.Client.History.Catching.{caught}
use open_chat.Client.History.Stored.{IsHeld, store_gateways, fetch_history-get_blocks}
use open_chat.App.Device.{File, Json, DiskError}
use open_chat.App.Chats.{Chats, Contact, contacts, has_message, history}
use open_chat.App.Chats.Saving.{
  ChatStore, persist-chats, persist, persist-ok, set_last_synced_height,
}
use open_chat.App.Service.{
  Pass, SyncError, or_save_failed, save_failed, save_events, starting, finish_sync, known_keys,
  sync_history,
}
use open_chat.App.Service.Replay.{AreSaved, save_events-AreSaved}

abbrev AreNamed : List HistoryEvent → Type 0
AreNamed evs = All (λ (ev : HistoryEvent). ev.tx_hash ≢ []) evs

module _ (c : Crypto) (P : Primitives) (w : Wallet) (full : (m : Bytes) → c.sha256 m ≢ []) where
  tx_hash_from_pb_ne : (tx : SmsRequest) → tx_hash_from_pb c tx ≢ []
  unfolding tx_hash_from_pb Transaction.hash
  tx_hash_from_pb_ne tx = encode_ne _ (full _)

  scan_tx-AreNamed :
      (height : ℕ) (tx : SmsRequest) (known : Known)
      → AreNamed (scan_tx c P w height tx known).events
  unfolding scan_tx scan_incoming scan_outgoing
  scan_tx-AreNamed height tx known = elim (Bool-cases (eq_bytes tx.to_address (Wallet.address w))) [
    | inl here ↦ elim (Result-cases (decrypt_incoming P w tx)) [
      | inl (why, e) ↦ rw (scan_tx, here, scan_incoming, e) tt
      | inr (plain, e) ↦ rw (scan_tx, here, scan_incoming, e) (tx_hash_from_pb_ne tx, tt)
    ]
    | inr away ↦ elim (Bool-cases (eq_bytes tx.from_address (Wallet.address w))) [
      | inl own ↦ elim (Option-cases (known_key known tx.to_address)) [
        | inl e ↦ rw (scan_tx, away, own, scan_outgoing, e) tt
        | inr (key, e) ↦ elim (Result-cases (decrypt_outgoing P w tx key)) [
          | inl (why, d) ↦ rw (scan_tx, away, own, scan_outgoing, e, d) tt
          | inr (plain, d) ↦
              rw (scan_tx, away, own, scan_outgoing, e, d) (tx_hash_from_pb_ne tx, tt)
        ]
      ]
      | inr other ↦ rw (scan_tx, away, other) tt
    ]
  ]

  scan_txs-AreNamed :
      (height : ℕ) (txs : List SmsRequest) (known : Known)
      → AreNamed (scan_txs c P w height txs known).events
  unfolding scan_txs
  scan_txs-AreNamed height [] known = tt
  scan_txs-AreNamed height (tx ∷ txs) known =
      All-append (λ (ev : HistoryEvent). ev.tx_hash ≢ []) _ _ (scan_tx-AreNamed height tx known)
        (scan_txs-AreNamed height txs (scan_tx c P w height tx known).known)

  scan_blocks-AreNamed :
      (bs : List BlockPb) (height : ℕ) (known : Known)
      → AreNamed (scan_blocks c P w bs height known).1.events
  unfolding scan_blocks
  scan_blocks-AreNamed [] height known = tt
  scan_blocks-AreNamed (b ∷ bs) height known =
      All-append (λ (ev : HistoryEvent). ev.tx_hash ≢ []) _ _
        (scan_txs-AreNamed b.height b.transactions known)
        (scan_blocks-AreNamed bs _ (scan_txs c P w b.height b.transactions known).known)

-- The checkpoint is no part of the histories.
checkpointed :
    (s : Chats) (height : ℕ) (address tx_hash : Bytes)
    → has_message (record s { synced_height = height }) address tx_hash
      ≡ has_message s address tx_hash
unfolding has_message history
checkpointed s height address tx_hash = refl

abbrev pub AreKept : List HistoryEvent → Chats → Type 0
AreKept evs s = All (λ (ev : HistoryEvent). has_message s ev.peer_address ev.tx_hash ≡ true) evs

-- How a sync of a whole chain ends: with the checkpoint behind it and all of it in the file, or with
-- the error of a write.
pub data IsSynced (F : File) (J : Json Chats) (height : ℕ)
    : Result SyncError (Unit {0}) → ChatStore F J → Type 0 where
  synced :
      (st : ChatStore F J) (raw : Bytes)
      → st.chats.synced_height ≡ height
      → J.marshal st.chats ≡ some raw
      → F.read st.disk ≡ ok raw
      → IsSynced F J height (ok tt) st
  unsaved : (why : DiskError) (st : ChatStore F J) → IsSynced F J height (err (save_failed why)) st

module _ (F : File) (J : Json Chats) where
  checkpoint-chats :
      (height : ℕ) (st : ChatStore F J)
      → (set_last_synced_height F J st height).1.chats ≡ record st.chats { synced_height = height }
  unfolding set_last_synced_height
  checkpoint-chats height st =
      persist-chats F J (record st { chats = record st.chats { synced_height = height } })

  written_or_unsaved :
      (height : ℕ) (st : ChatStore F J)
      → st.chats.synced_height ≡ height
      → IsSynced F J height (or_save_failed (persist F J st).0) (persist F J st).1
  written_or_unsaved height st e = elim (Result-cases (persist F J st).0) [
    | inl (why, bad) ↦ rw (bad) (unsaved why (persist F J st).1)
    | inr (done, good) ↦
        let st' = (persist F J st).1 in
        let (raw, made, written, same) =
          persist-ok F J st st' (ap (λ (r : Result DiskError (Unit {0})). (r, st')) good) in
        rw (good) (
          synced st' raw (ap (λ (s : Chats). s.synced_height) same ∙ e) (ap J.marshal same ∙ made)
            (F.read-write st.disk st'.disk raw written).1)
  ]

  checkpoint-IsSynced :
      (height : ℕ) (st : ChatStore F J)
      → IsSynced F J height
          (or_save_failed (set_last_synced_height F J st height).0)
          (set_last_synced_height F J st height).1
  unfolding set_last_synced_height
  checkpoint-IsSynced height st =
      written_or_unsaved height (record st { chats = record st.chats { synced_height = height } })
        refl

  finished :
      (next : ℕ) (evs : List HistoryEvent) (p : Pass F J)
      → AreSaved F J evs p
      → IsSynced F J next (finish_sync F J caught_up next p).0 (finish_sync F J caught_up next p).1
        × AreKept evs (finish_sync F J caught_up next p).1.chats
  unfolding finish_sync
  finished next evs p saved = elim (Option-cases p.append_error) [
    | inr (why, e) ↦ rw (finish_sync, e) (unsaved why p.store, saved)
    | inl e ↦
        let chats = checkpoint-chats next p.store in
        rw (finish_sync, e)
          (
            checkpoint-IsSynced next p.store,
            All-mono evs
                (λ ev there.
                  ap (λ (s : Chats). has_message s ev.peer_address ev.tx_hash) chats
                  ∙ checkpointed p.store.chats next ev.peer_address ev.tx_hash
                  ∙ there)
                saved,
          )
  ]

  -- A sync with gateways that serve a chain, from a checkpoint at any front of it, keeps in the
  -- histories of the store every message that one pass over the rest of the chain finds, even where
  -- a write of the file fails, which is the only error there is. Without an error the checkpoint
  -- stands behind the chain, and the file has the text of all that the store holds. No hash
  -- is empty; there are fewer than 2 ^ 64 blocks, with their places for heights.
  pub sync_history-IsSynced :
      (c : Crypto) (P : Primitives) (S : BlockStore) (s : S.State) (chain : List Block)
      (sort : (Contact → Contact → Bool) → List Contact → List Contact) (w : Wallet)
      (st : ChatStore F J) (front rest : List BlockPb)
      → ((m : Bytes) → c.sha256 m ≢ [])
      → IsHeld S s chain
      → front ++ rest ≡ map block_to_pb chain
      → length front ≡ st.chats.synced_height
      → IsNumbered 0 (map block_to_pb chain)
      → length chain < word
      → IsSynced F J
          (length chain)
          (sync_history F J c P sort (store_gateways S s) (suc (length rest)) w st).0
          (sync_history F J c P sort (store_gateways S s) (suc (length rest)) w st).1
        × AreKept
            (scan_blocks c P w rest
              (length front)
              (some (known_keys (contacts sort st.chats) []))).1.events
            (sync_history F J c P sort (store_gateways S s) (suc (length rest)) w st).1.chats
  unfolding sync_history
  sync_history-IsSynced c P S s chain sort w st front rest full held e place numbered small =
      let known : Known = some (known_keys (contacts sort st.chats) []) in
      let found = scan_blocks c P w rest (length front) known in
      let gateways = store_gateways S s in
      let (scan, next) =
        fetch_history-get_blocks S s chain c P w front rest known held e numbered small in
      let fetched : fetch_history c P w gateways (suc (length rest)) 0 st.chats.synced_height known
          ≡ caught found =
        ap (λ (h : ℕ). fetch_history c P w gateways (suc (length rest)) 0 h known) (sym place)
        ∙ scan in
      let saved =
        save_events-AreSaved F J found.1.events (starting F J st)
          (scan_blocks-AreNamed c P w full rest (length front) known) in
      rw (sync_history, fetched, sym next)
        (finished found.0 found.1.events (save_events F J found.1.events (starting F J st)) saved)
