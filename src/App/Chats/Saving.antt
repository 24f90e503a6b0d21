-- ===== src/App/Chats/Saving.antt =====
-- internal/app/chat_store.go: the store with its file. Every call that changes it writes the file
-- before it returns; what it changed in memory stays when the write fails.
use open_chat.Prelude.{
  ℕ, ◌≡◌, refl, ap, subst, sym, Bool, true, false, not, none, some, ◌==◌, if◌then◌else◌, arith,
  length, Result, ok, err, ◌>>=◌, Bool-cases, Option-cases, Result-cases, inl, inr,
}
use open_chat.Go.Bytes.{Bytes}
use open_chat.App.Device.{File, Json, DiskError, not_json, or_not_json}
use open_chat.App.Chats.{Chats, Contact, StoredMessage, no_chats, appended, upserted, has_message}

module _ (F : File) (J : Json Chats) where
  pub record ChatStore : Type 0 where
    pub chats : Chats
    pub disk : F.Disk

  unfoldable pub load : F.Disk → Result DiskError Chats
  load d = do
    there ← F.exists d
    if not there then ok no_chats else do
      raw ← F.read d
      if length raw == 0 then ok no_chats else or_not_json (J.unmarshal raw)

  unfoldable pub new_chat_store : F.Disk → Result DiskError ChatStore
  new_chat_store d = do chats ← load d; ok (record { chats = chats; disk = d })

  unfoldable pub persist : ChatStore → Result DiskError (Unit {0}) × ChatStore
  persist s = elim (J.marshal s.chats) [
    | none ↦ (err not_json, s)
    | some raw ↦ let (answer, disk') = F.write s.disk raw in (answer, record s { disk = disk' })
  ]

  unfoldable pub upsert_contact : ChatStore → Contact → Result DiskError (Unit {0}) × ChatStore
  upsert_contact s c = persist (record s { chats = upserted s.chats c })

  unfoldable pub append_message :
      ChatStore → Bytes → StoredMessage → Bytes → Result DiskError (Unit {0}) × ChatStore
  append_message s address msg key_hex =
      persist (record s { chats = appended s.chats address msg key_hex })

  -- Whether the message is new, and the error of the write if there was one.
  unfoldable pub append_history_message :
      ChatStore → Bytes → StoredMessage → Bytes → Bool × Result DiskError (Unit {0}) × ChatStore
  append_history_message s address msg key_hex =
      let (answer, s') = persist (record s { chats = appended s.chats address msg key_hex }) in
      if has_message s.chats address msg.tx_hash then (false, ok tt, s) else (true, answer, s')

  unfoldable pub set_last_synced_height : ChatStore → ℕ → Result DiskError (Unit {0}) × ChatStore
  set_last_synced_height s height =
      persist (record s { chats = record s.chats { synced_height = height } })

  -- The memory is emptied whatever becomes of the file.
  unfoldable pub wipe : ChatStore → Result DiskError (Unit {0}) × ChatStore
  wipe s =
      let (answer, disk') = F.delete s.disk in
      elim (F.exists s.disk) [
        | err why ↦ (err why, record s { chats = no_chats })
        | ok false ↦ (ok tt, record s { chats = no_chats })
        | ok true ↦ (answer, record { chats = no_chats; disk = disk' })
      ]

  -- Whatever becomes of the file, the memory is as the call has left it.
  pub persist-chats : (s : ChatStore) → (persist s).1.chats ≡ s.chats
  unfolding persist
  persist-chats s = elim (Option-cases (J.marshal s.chats)) [
    | inl e ↦ rw (persist, e) refl
    | inr (raw, e) ↦ rw (persist, e) refl
  ]

  -- A write that ends well leaves the store's text in the file.
  pub persist-ok :
      (s s' : ChatStore)
      → persist s ≡ (ok tt, s')
      → (raw : Bytes) × (J.marshal s.chats ≡ some raw)
        × (F.write s.disk raw ≡ (ok tt, s'.disk))
        × (s'.chats ≡ s.chats)
  unfolding persist
  persist-ok s s' saved = elim (Option-cases (J.marshal s.chats)) [
    | inl none_made ↦ absurd (ground (arith, rw (persist, none_made) at saved))
    | inr (raw, made) ↦
        let done = rw (persist, made) at saved in
        (
          raw,
          made,
          ap (λ (p : Result DiskError (Unit {0}) × ChatStore). (p.0, p.1.disk)) done,
          sym (ap (λ (p : Result DiskError (Unit {0}) × ChatStore). p.1.chats) done),
        )
  ]

  pub append_history_message-chats :
      (s : ChatStore) (address : Bytes) (msg : StoredMessage) (key_hex : Bytes)
      → (append_history_message s address msg key_hex).2.chats ≡ (
          if has_message s.chats address msg.tx_hash
          then s.chats
          else appended s.chats address msg key_hex)
  unfolding append_history_message
  append_history_message-chats s address msg key_hex =
      elim (Bool-cases (has_message s.chats address msg.tx_hash)) [
        | inl e ↦ rw (append_history_message, e) refl
        | inr e ↦
            rw (append_history_message, e)
              (persist-chats (record s { chats = appended s.chats address msg key_hex }))
      ]

  pub append_history_message_again :
      (s : ChatStore) (address : Bytes) (msg : StoredMessage) (key_hex : Bytes)
      → has_message s.chats address msg.tx_hash ≡ true
      → append_history_message s address msg key_hex ≡ (false, ok tt, s)
  unfolding append_history_message
  append_history_message_again s address msg key_hex there = rw (append_history_message, there) refl

  -- What was saved without an error is loaded again, with all that the store held: for contents that
  -- the encoding gives back, from a text that is not empty.
  pub load-persist :
      (s s' : ChatStore)
      → ((raw : Bytes)
          → J.marshal s.chats ≡ some raw
          → (J.unmarshal raw ≡ some s.chats) × ((length raw == 0) ≡ false))
      → persist s ≡ (ok tt, s')
      → (load s'.disk ≡ ok s.chats) × (s'.chats ≡ s.chats)
  unfolding load persist
  load-persist s s' faithful saved =
      let (raw, made, written, same) = persist-ok s s' saved in
      let (there, back) = F.read-write s.disk s'.disk raw written in
      let (decoded, full) = faithful raw made in (rw (load, there, back, full, decoded) refl, same)

  -- After a `wipe` without an error, the app starts again with an empty address book.
  pub load-wipe :
      (s s' : ChatStore)
      → wipe s ≡ (ok tt, s')
      → (load s'.disk ≡ ok no_chats) × (s'.chats ≡ no_chats)
  unfolding load wipe
  load-wipe s s' wiped = elim (Result-cases (F.exists s.disk)) [
    | inl (why, bad) ↦ absurd (ground (arith, rw (wipe, bad) at wiped))
    | inr (false, gone) ↦
        let done = rw (wipe, gone) at wiped in
        let same = ap (λ (p : Result DiskError (Unit {0}) × ChatStore). p.1) done in
        (
          subst (λ (t : ChatStore). load t.disk ≡ ok no_chats) same (rw (load, gone) refl),
          sym (ap (λ (t : ChatStore). t.chats) same),
        )
    | inr (true, there) ↦
        let done = rw (wipe, there) at wiped in
        let deleted : F.delete s.disk ≡ (ok tt, s'.disk) =
          ap (λ (p : Result DiskError (Unit {0}) × ChatStore). (p.0, p.1.disk)) done in
        (
          rw (load, F.exists-delete s.disk s'.disk deleted) refl,
          sym (ap (λ (p : Result DiskError (Unit {0}) × ChatStore). p.1.chats) done),
        )
  ]
