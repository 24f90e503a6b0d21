-- ===== src/Examples/Apps.antt =====
-- The stores of the app and the session of a phone, at concrete values.
use open_chat.Prelude.{
  ◌+◌, ◌≤◌, ◌≡◌, subst, take, drop, take_front, drop_front, refl, sym, ap, ◌∙◌, Bool, true, false,
  Option, none, some, [], ◌∷◌, ◌++◌, arith, length, Result, ok, err,
}
use open_chat.Go.Hex
use open_chat.Go.Bytes.{IsBytes, Bytes, eq_bytes, codes}
use open_chat.Go.Map.{lookup}
use open_chat.Client.Discovery.{new_discovery}
use open_chat.Client.History.{HistoryEvent}
use open_chat.App.Device.{File, Json, DiskError, unreadable}
use open_chat.App.Chats.{Chats, Contact, StoredMessage, incoming, contact}
use open_chat.App.Chats.Saving.{ChatStore, load, persist, load-persist}
use open_chat.App.Service.{save_events, starting}
use open_chat.App.Service.Replay.{save_events_idempotent}
use open_chat.App.Vault
use open_chat.App.Vault.{
  WalletFile, IsFaithful, Derivation, VaultError, wrong_pin, or_vault_error, load-save,
}
use open_chat.Mobile.Session.{
  Session, begin, finish, halt, Run, done, next, begins, finishes, halts, total, begun, finished,
  one_listener, stop, begin_listen, end_listen,
}
use open_chat.Examples.Toys.{copies}
use open_chat.Examples.Keyrings.{sums, anna, copies-IsBytes}

-- A disk with one file at most.
abbrev pub is_there : Option Bytes → Bool
is_there none = false
is_there (some raw) = true

abbrev pub contents : Option Bytes → Result DiskError Bytes
contents none = err unreadable
contents (some raw) = ok raw

abbrev pub put : Option Bytes → Bytes → Result DiskError (Unit {0}) × Option Bytes
put d raw = (ok tt, some raw)

abbrev pub there : Option Bytes → Result DiskError Bool
there d = ok (is_there d)

abbrev pub drop_file : Option Bytes → Result DiskError (Unit {0}) × Option Bytes
drop_file d = (ok tt, none)

pub there-put :
    (d d' : Option Bytes) (raw : Bytes)
    → put d raw ≡ (ok tt, d')
    → (there d' ≡ ok true) × (contents d' ≡ ok raw)
there-put d d' raw e =
    subst (λ (x : Option Bytes). (there x ≡ ok true) × (contents x ≡ ok raw))
      (ap (λ (p : Result DiskError (Unit {0}) × Option Bytes). p.1) e) (refl, refl)

pub there-drop_file : (d d' : Option Bytes) → drop_file d ≡ (ok tt, d') → there d' ≡ ok false
there-drop_file d d' e =
    subst (λ (x : Option Bytes). there x ≡ ok false)
      (ap (λ (p : Result DiskError (Unit {0}) × Option Bytes). p.1) e) refl

abbrev pub one_file : File
one_file = record {
  Disk = Option Bytes;
  exists = there;
  read = contents;
  write = put;
  delete = drop_file;
  read-write = there-put;
  exists-delete = there-drop_file;
}

-- A friend with a key, and one message of hers.
abbrev friend : Contact
friend = record { address = codes "f"; x25519_pub_hex = codes "k"; display_name = codes "F" }

abbrev note : StoredMessage
note = record { direction = incoming; text = codes "hi"; tx_hash = codes "h"; timestamp = 5 }

abbrev pub some_chats : Chats
some_chats = record {
  contacts = (codes "f", friend) ∷ [];
  messages = (codes "f", note ∷ []) ∷ [];
  synced_height = 3;
}

abbrev pub chats_json : Json Chats
chats_json = record { marshal = λ c. some (codes "{}"); unmarshal = λ raw. some some_chats }

friend_lem : contact some_chats (codes "f") ≡ some friend
unfolding contact lookup eq_bytes
friend_lem = refl

abbrev full_store : ChatStore one_file chats_json
full_store = record { chats = some_chats; disk = none }

abbrev saved_store : ChatStore one_file chats_json
saved_store = record { chats = some_chats; disk = some (codes "{}") }

persist_lem : persist one_file chats_json full_store ≡ (ok tt, saved_store)
unfolding persist
persist_lem = refl

load-persist_example :
    (load one_file chats_json (some (codes "{}")) ≡ ok some_chats) × (some_chats ≡ some_chats)
load-persist_example =
    load-persist one_file chats_json full_store saved_store (λ raw e. (refl, ground (arith, e)))
      persist_lem

abbrev event : HistoryEvent
event = record {
  height = 1;
  tx_hash = codes "x";
  timestamp = 9;
  incoming = true;
  peer_address = codes "f";
  peer_x25519_pub_hex = codes "k";
  plaintext = codes "yo";
}

save_events_idempotent_example :
    save_events one_file chats_json (event ∷ event ∷ []) (
      save_events one_file chats_json
        (event ∷ event ∷ [])
        (starting one_file chats_json full_store))
    ≡ save_events one_file chats_json (event ∷ event ∷ []) (starting one_file chats_json full_store)
save_events_idempotent_example =
    save_events_idempotent one_file chats_json (event ∷ event ∷ [])
      (starting one_file chats_json full_store) (λ e. absurd cc, (λ e. absurd cc, tt))

-- A vault: keys are the PIN and the salt, texts are hexadecimal, and their lengths stand in front.
abbrev pub plain : Derivation
plain = record {
  key = λ pin salt. some (pin ++ salt);
  encode = Hex.encode;
  decode = Hex.decode;
  decode-encode = Hex.decode-encode;
  encode-IsPrintable = Hex.encode-IsPrintable;
}

abbrev pub pack : WalletFile → Option Bytes
pack wf = some (length wf.salt ∷ length wf.nonce ∷ (wf.salt ++ (wf.nonce ++ wf.ciphertext)))

abbrev pub unpack : Bytes → Option WalletFile
unpack [] = none
unpack (a ∷ []) = none
unpack (a ∷ b ∷ rest) =
    some (record {
      salt = take a rest;
      nonce = take b (drop a rest);
      ciphertext = drop b (drop a rest);
    })

abbrev pub packed : Json WalletFile
packed = record { marshal = pack; unmarshal = unpack }

unpack-pack : IsFaithful packed
unpack-pack wf raw _ _ _ e =
    let back = drop_front wf.salt (wf.nonce ++ wf.ciphertext) in
    let here = ap (λ (o : Option Bytes). elim o [ none ↦ none | some r ↦ unpack r ]) e in
    sym here
    ∙ rw
        (
          take_front wf.salt (wf.nonce ++ wf.ciphertext),
          back,
          take_front wf.nonce wf.ciphertext,
          drop_front wf.nonce wf.ciphertext,
        )
        refl

-- The file with the salt 9, the nonce of zeros and the text under the PIN 1.
abbrev sealed_raw : Bytes
sealed_raw =
    2
    ∷ 24
    ∷ (codes "09" ++ (codes "000000000000000000000000" ++ Hex.encode (1 ∷ 9 ∷ codes "words")))

saved_lem :
    Vault.save sums plain packed one_file
      (codes "words")
      (1 ∷ [])
      (some (9 ∷ []))
      (some (copies 12 0))
      none
    ≡ (ok tt, some sealed_raw)
unfolding Vault.save Vault.sealed_file Hex.encode
saved_lem = refl

words-IsBytes : IsBytes (1 ∷ 9 ∷ codes "words")
words-IsBytes = ground arith

load-save_example :
    (Vault.load sums plain packed one_file (1 ∷ []) (some sealed_raw) ≡ ok (codes "words"))
    × (Vault.load sums plain packed one_file (2 ∷ []) (some sealed_raw)
        ≡ or_vault_error wrong_pin (
            sums.unseal
              (2 ∷ 9 ∷ [])
              (copies 12 0)
              (sums.seal (1 ∷ 9 ∷ []) (copies 12 0) (codes "words"))))
load-save_example =
    load-save sums plain packed one_file (codes "words") (1 ∷ []) (2 ∷ []) (9 ∷ []) (copies 12 0)
      (1 ∷ 9 ∷ []) (2 ∷ 9 ∷ []) none (some sealed_raw) unpack-pack (omega arith, tt)
      (copies-IsBytes 12 0 (omega arith)) words-IsBytes refl refl refl saved_lem

-- A phone: a listener begins, is asked to stop, and returns; another begins.
abbrev idle : Session
idle = record { wallet = anna; discovery = new_discovery []; listener = none }

abbrev busy : Session
busy = record { wallet = anna; discovery = new_discovery []; listener = some false }

idle_begins : begin_listen idle ≡ ok busy
unfolding begin_listen
idle_begins = refl

idle_again : end_listen (stop busy) ≡ idle
unfolding end_listen stop
idle_again = refl

four_calls : Run idle (begin ∷ halt ∷ finish ∷ begin ∷ []) busy
unfolding end_listen stop
four_calls = next idle busy busy begin (halt ∷ finish ∷ begin ∷ []) (begins idle busy idle_begins) (
    next busy (stop busy) busy halt (finish ∷ begin ∷ []) (halts busy) (
      next (stop busy) idle busy finish (begin ∷ []) (finishes (stop busy) true refl)
        (next idle busy busy begin [] (begins idle busy idle_begins) (done busy))))

one_listener_example :
    (0 + total begun (begin ∷ halt ∷ finish ∷ begin ∷ [])
      ≡ 1 + total finished (begin ∷ halt ∷ finish ∷ begin ∷ []))
    × (1 ≤ 1)
one_listener_example = one_listener idle busy (begin ∷ halt ∷ finish ∷ begin ∷ []) four_calls
