-- ===== src/App/Chats/Laws.antt =====
-- What the appends do to the history and to the address book.
use open_chat.Prelude.{
  ◌≡◌, ◌≢◌, refl, ap, ◌∙◌, Bool, not, ◌&&◌, ◌||◌, some, List, [], ◌∷◌, ◌++◌, if◌then◌else◌, arith,
  any, Bool-cases, inl, inr,
}
use open_chat.Go.Bytes.{Bytes, eq_bytes, eq_bytes_iff, eq_bytes_ne}
use open_chat.Go.Map.{lookup-insert}
use open_chat.App.Chats.{
  Chats, Contact, StoredMessage, history, contact, contact_or_new, with_key, appended, has_message,
}

pub history-appended :
    (s : Chats) (address other : Bytes) (msg : StoredMessage) (key_hex : Bytes)
    → history (appended s address msg key_hex) other
      ≡ (if eq_bytes address other then history s address ++ msg ∷ [] else history s other)
unfolding appended history
history-appended s address other msg key_hex = elim (Bool-cases (eq_bytes address other)) [
  | inl e ↦ rw (history, lookup-insert, e) refl
  | inr e ↦ rw (history, lookup-insert, e) refl
]

contact-appended :
    (s : Chats) (address other : Bytes) (msg : StoredMessage) (key_hex : Bytes)
    → contact (appended s address msg key_hex) other ≡ (
        if eq_bytes address other
        then some (with_key (contact_or_new s address) key_hex)
        else contact s other)
unfolding appended contact
contact-appended s address other msg key_hex =
    lookup-insert s.contacts address other (with_key (contact_or_new s address) key_hex)

with_key_known : (c : Contact) (key_hex : Bytes) → c.x25519_pub_hex ≢ [] → with_key c key_hex ≡ c
unfolding with_key
with_key_known c key_hex known = ground (arith, eq_bytes_ne c.x25519_pub_hex [] known)

contact_or_new_known :
    (s : Chats) (address : Bytes) (c : Contact)
    → contact s address ≡ some c
    → contact_or_new s address ≡ c
unfolding contact contact_or_new
contact_or_new_known s address c e = rw (contact_or_new, e) refl

-- An append adds the message at the end of its own history and touches no other; and a contact whose
-- key is known stays as it is, its own or another.
pub appended_lem :
    (s : Chats) (address other : Bytes) (msg : StoredMessage) (key_hex : Bytes) (c : Contact)
    → contact s other ≡ some c
    → c.x25519_pub_hex ≢ []
    → (history (appended s address msg key_hex) other
        ≡ (if eq_bytes address other then history s address ++ msg ∷ [] else history s other))
      × (contact (appended s address msg key_hex) other ≡ some c)
appended_lem s address other msg key_hex c e known = (
  history-appended s address other msg key_hex,
  elim (Bool-cases (eq_bytes address other)) [
    | inl same ↦
        let here = (eq_bytes_iff address other).0 same in
        contact-appended s address other msg key_hex
        ∙ ground (
          arith,
          same,
          contact_or_new_known s address c (ap (contact s) here ∙ e),
          with_key_known c key_hex known,
        )
    | inr apart ↦ contact-appended s address other msg key_hex ∙ ground (arith, apart, e)
  ],
)

any-append :
    (p : StoredMessage → Bool) (xs ys : List StoredMessage)
    → any p (xs ++ ys) ≡ any p xs || any p ys
any-append p [] ys = refl
any-append p (x ∷ xs) ys = ground (arith, any-append p xs ys)

-- A message that stands in a history stays there, and what is appended stands in it.
pub has_message-appended :
    (s : Chats) (address other tx_hash : Bytes) (msg : StoredMessage) (key_hex : Bytes)
    → has_message (appended s address msg key_hex) other tx_hash
      ≡ has_message s other tx_hash
        || (eq_bytes address other && not (eq_bytes tx_hash []) && eq_bytes msg.tx_hash tx_hash)
unfolding has_message
has_message-appended s address other tx_hash msg key_hex =
    rw (history-appended s address other msg key_hex) (elim (Bool-cases (eq_bytes address other)) [
      | inl same ↦ rw (same) (
          ground (
            arith,
            ap (history s) ((eq_bytes_iff address other).0 same),
            any-append (λ (m : StoredMessage). eq_bytes m.tx_hash tx_hash) (history s address)
                (msg ∷ []),
          ))
      | inr apart ↦ rw (apart) (ground arith)
    ])
