-- ===== src/App/Service/Replay.antt =====
-- A second pass over the same events.
use open_chat.Prelude.{
  ◌≡◌, ◌≢◌, refl, ap, ap₂, ◌∙◌, true, not, ◌&&◌, ◌||◌, List, [], ◌∷◌, if◌then◌else◌, arith, All,
  Bool-cases, Result-cases, inl, inr,
}
use open_chat.Go.Bytes.{Bytes, eq_bytes, eq_bytes_iff, eq_bytes_refl, eq_bytes_ne}
use open_chat.Client.History.{HistoryEvent}
use open_chat.App.Device.{File, Json}
use open_chat.App.Chats.{Chats, has_message, appended}
use open_chat.App.Chats.Laws.{has_message-appended}
use open_chat.App.Chats.Saving.{
  append_history_message, append_history_message-chats, append_history_message_again,
}
use open_chat.App.Service.{Pass, noted, save_event, save_events, stored_event}

module _ (F : File) (J : Json Chats) where
  save_event-chats :
      (ev : HistoryEvent) (p : Pass F J)
      → (save_event F J ev p).store.chats ≡ (
          if has_message p.store.chats ev.peer_address ev.tx_hash
          then p.store.chats
          else appended p.store.chats ev.peer_address (stored_event ev) ev.peer_x25519_pub_hex)
  unfolding save_event
  save_event-chats ev p =
      let made =
        append_history_message F J p.store ev.peer_address (stored_event ev)
          ev.peer_x25519_pub_hex in
      let kept =
        append_history_message-chats F J p.store ev.peer_address (stored_event ev)
          ev.peer_x25519_pub_hex in
      elim (Result-cases made.1) [
        | inl (why, e) ↦ rw (save_event, e) kept
        | inr (done, e) ↦ rw (save_event, e) kept
      ]

  -- What was there stays, and the event is there.
  save_event-has_message :
      (ev : HistoryEvent) (p : Pass F J) (address tx_hash : Bytes)
      → has_message (save_event F J ev p).store.chats address tx_hash
        ≡ has_message p.store.chats address tx_hash
          || (eq_bytes ev.peer_address address
              && not (eq_bytes tx_hash [])
              && eq_bytes ev.tx_hash tx_hash)
  save_event-has_message ev p address tx_hash =
      ap (λ (s : Chats). has_message s address tx_hash) (save_event-chats ev p)
      ∙ elim (Bool-cases (has_message p.store.chats ev.peer_address ev.tx_hash)) [
        | inl there ↦
            rw (there)
              (elim (Bool-cases (eq_bytes ev.peer_address address && eq_bytes ev.tx_hash tx_hash)) [
                | inl both ↦
                    let here = (eq_bytes_iff ev.peer_address address).0 (ground (arith, both)) in
                    let this = (eq_bytes_iff ev.tx_hash tx_hash).0 (ground (arith, both)) in
                    let same = ap₂ (λ (a h : Bytes). has_message p.store.chats a h) here this in
                    ground (arith, same, there)
                | inr apart ↦ ground (arith, apart)
              ])
        | inr new ↦ rw (new) (
            has_message-appended p.store.chats ev.peer_address address tx_hash (stored_event ev)
              ev.peer_x25519_pub_hex)
      ]

  save_event_again :
      (ev : HistoryEvent) (p : Pass F J)
      → has_message p.store.chats ev.peer_address ev.tx_hash ≡ true
      → save_event F J ev p ≡ p
  unfolding save_event
  save_event_again ev p there = ap (noted F J ev p) (
      append_history_message_again F J p.store ev.peer_address (stored_event ev)
        ev.peer_x25519_pub_hex there)

  -- The events stand in the history.
  abbrev pub AreSaved : List HistoryEvent → Pass F J → Type 0
  AreSaved evs p =
      All (λ (ev : HistoryEvent). has_message p.store.chats ev.peer_address ev.tx_hash ≡ true) evs

  save_events_keep :
      (evs : List HistoryEvent) (p : Pass F J) (address tx_hash : Bytes)
      → has_message p.store.chats address tx_hash ≡ true
      → has_message (save_events F J evs p).store.chats address tx_hash ≡ true
  unfolding save_events
  save_events_keep [] p address tx_hash there = there
  save_events_keep (ev ∷ evs) p address tx_hash there =
      save_events_keep evs (save_event F J ev p) address tx_hash
        (ground (arith, save_event-has_message ev p address tx_hash, there))

  pub save_events-AreSaved :
      (evs : List HistoryEvent) (p : Pass F J)
      → All (λ (ev : HistoryEvent). ev.tx_hash ≢ []) evs
      → AreSaved evs (save_events F J evs p)
  unfolding save_events
  save_events-AreSaved [] p named = tt
  save_events-AreSaved (ev ∷ evs) p named = (
    save_events_keep evs (save_event F J ev p) ev.peer_address ev.tx_hash (
        ground (
          arith,
          save_event-has_message ev p ev.peer_address ev.tx_hash,
          eq_bytes_refl ev.peer_address,
          eq_bytes_refl ev.tx_hash,
          eq_bytes_ne ev.tx_hash [] named.0,
        )),
    save_events-AreSaved evs (save_event F J ev p) named.1,
  )

  nothing_new :
      (evs : List HistoryEvent) (p : Pass F J) → AreSaved evs p → save_events F J evs p ≡ p
  unfolding save_events
  nothing_new [] p saved = refl
  nothing_new (ev ∷ evs) p saved =
      ap (save_events F J evs) (save_event_again ev p saved.0) ∙ nothing_new evs p saved.1

  -- A second pass over the same events changes nothing, in memory or on disk, and calls nobody,
  -- whether or not the writes of the first one succeeded: for events with a transaction hash.
  pub save_events_idempotent :
      (evs : List HistoryEvent) (p : Pass F J)
      → All (λ (ev : HistoryEvent). ev.tx_hash ≢ []) evs
      → save_events F J evs (save_events F J evs p) ≡ save_events F J evs p
  save_events_idempotent evs p named =
      nothing_new evs (save_events F J evs p) (save_events-AreSaved evs p named)
