-- ===== src/App/Chats.antt =====
-- internal/app/chat_store.go: the address book and the message history of a device.
pub mod Saving
pub mod Laws
use open_chat.Prelude.{
  ℕ, suc, ◌+◌, ◌-◌, ◌≡◌, refl, Bool, true, false, not, ◌&&◌, Option, none, some, List, [], ◌∷◌,
  ◌++◌, leb, ltb, ◌==◌, if◌then◌else◌, arith, length, take, drop, any, Result, ok, err, ◌>>=◌,
}
use open_chat.Go.Bytes.{Bytes, eq_bytes, less, codes}
use open_chat.Go.Map.{Map, lookup, insert, values}

pub record Contact : Type 0 where
  pub address : Bytes
  pub x25519_pub_hex : Bytes
  pub display_name : Bytes

pub data Direction : Type 0 where
  outgoing incoming : Direction

pub record StoredMessage : Type 0 where
  pub direction : Direction
  pub text : Bytes
  pub tx_hash : Bytes
  pub timestamp : ℕ

-- What the file holds, and what the store keeps in memory.
pub record Chats : Type 0 where
  pub contacts : Map Contact
  pub messages : Map (List StoredMessage)
  pub synced_height : ℕ

abbrev pub no_chats : Chats
no_chats = record { contacts = []; messages = []; synced_height = 0 }

-- The bytes of "…" between the ends.
unfoldable pub short_addr : Bytes → Bytes
short_addr addr =
    if leb (length addr) 12
    then addr
    else take 6 addr ++ (226 ∷ 128 ∷ 166 ∷ []) ++ drop (length addr - 6) addr

-- A missing key reads as no messages.
unfoldable pub history : Chats → Bytes → List StoredMessage
history s address = elim (lookup s.messages address) [ none ↦ [] | some ms ↦ ms ]

unfoldable pub contact : Chats → Bytes → Option Contact
contact s address = lookup s.contacts address

unfoldable pub contact_or_new : Chats → Bytes → Contact
contact_or_new s address = elim (lookup s.contacts address) [
  | some known ↦ known
  | none ↦ record { address = address; x25519_pub_hex = []; display_name = short_addr address }
]

-- A key is learned where none is known yet.
unfoldable pub with_key : Contact → Bytes → Contact
with_key c key_hex =
    if not (eq_bytes key_hex []) && eq_bytes c.x25519_pub_hex []
    then record c { x25519_pub_hex = key_hex }
    else c

-- The part of AppendMessage and AppendHistoryMessage in front of `persist`.
unfoldable pub appended : Chats → Bytes → StoredMessage → Bytes → Chats
appended s address msg key_hex = record s {
  contacts = insert s.contacts address (with_key (contact_or_new s address) key_hex);
  messages = insert s.messages address (history s address ++ msg ∷ []);
}

unfoldable pub has_message : Chats → Bytes → Bytes → Bool
has_message s address tx_hash =
    if eq_bytes tx_hash []
    then false
    else any (λ (m : StoredMessage). eq_bytes m.tx_hash tx_hash) (history s address)

unfoldable pub upserted : Chats → Contact → Chats
upserted s c = record s {
  contacts = insert s.contacts c.address c;
  messages = elim (lookup s.messages c.address) [
    | some _ ↦ s.messages
    | none ↦ insert s.messages c.address []
  ];
}

-- sort.Slice by display name and by timestamp.
unfoldable pub contacts :
    ((Contact → Contact → Bool) → List Contact → List Contact) → Chats → List Contact
contacts sort s = sort (λ (a b : Contact). less a.display_name b.display_name) (values s.contacts)

unfoldable pub messages :
    ((StoredMessage → StoredMessage → Bool) → List StoredMessage → List StoredMessage)
    → Chats
    → Bytes
    → List StoredMessage
messages sort s address =
    sort (λ (a b : StoredMessage). ltb a.timestamp b.timestamp) (history s address)
