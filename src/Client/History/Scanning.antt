-- ===== src/Client/History/Scanning.antt =====
-- What a scan of blocks finds: batch after batch, and for a message that a client has sent.
use mathlib.Core.List.{append_assoc}
use open_chat.Prelude.{
  ℕ, suc, ◌+◌, ◌%◌, ◌<◌, ◌≡◌, refl, sym, ap, ap₂, ◌∙◌, ◌≢◌, true, false, some, List, [], ◌∷◌, ◌++◌,
  length, arith, ok,
}
use open_chat.Go.Bytes.{Bytes, eq_bytes_iff, eq_bytes_ne, fit, fit_full}
use open_chat.Go.Int64.{word}
use open_chat.Crypto.{Crypto}
use open_chat.Blockchain.Transaction
use open_chat.Blockchain.Transaction.{Transaction, IsTyped}
use open_chat.Gateway.Wire.{SmsRequest, BlockPb, pb_from_tx}
use open_chat.Client.Primitives.{Primitives}
use open_chat.Client.Keys.{AreMatched}
use open_chat.Client.Wallet
use open_chat.Client.Wallet.{Wallet, next_nonce}
use open_chat.Client.Sealing.{Sealed, encrypt, encrypt-parts}
use open_chat.Client.Envelope.{
  build_tx, build_tx-IsTyped, decrypt_incoming, decrypt_outgoing, decrypt-build_tx, tx_hash_from_pb,
  tx_hash_from_pb-pb_from_tx,
}
use open_chat.Client.History.{
  HistoryEvent, Known, known_key, learn, event_of, Scan, scan_tx, scan_incoming, scan_outgoing,
  scan_txs, scan_blocks,
}

-- The blocks stand at the heights from `h` on.
abbrev pub IsNumbered : ℕ → List BlockPb → Type 0
IsNumbered h [] = Unit {0}
IsNumbered h (b ∷ bs) = (b.height ≡ h) × IsNumbered (h + 1) bs

abbrev pub joined : ℕ × Scan → List HistoryEvent → ℕ × Scan
joined (next, scan) events = (next, record { known = scan.known; events = events ++ scan.events })

height_next : (height h n : ℕ) → height ≡ h → h + suc n < word → (height + 1) % word ≡ h + 1
height_next height h n e small = ground arith

module _ (c : Crypto) (P : Primitives) (w : Wallet) where
  pub scan_blocks-append :
      (xs ys : List BlockPb) (h : ℕ) (known : Known)
      → scan_blocks c P w (xs ++ ys) h known ≡ (
          let (next, first) = scan_blocks c P w xs h known in
          joined (scan_blocks c P w ys next first.known) first.events)
  unfolding scan_blocks
  scan_blocks-append [] ys h known = refl
  scan_blocks-append (b ∷ xs) ys h known =
      let first = scan_txs c P w b.height b.transactions known in
      let next = (b.height + 1) % word in
      let (later, mid) = scan_blocks c P w xs next first.known in
      ap (λ (r : ℕ × Scan). joined r first.events) (scan_blocks-append xs ys next first.known)
      ∙ ap
          (λ (es : List HistoryEvent). (
            (scan_blocks c P w ys later mid.known).0,
            record { known = (scan_blocks c P w ys later mid.known).1.known; events = es },
          ))
          (sym
            (append_assoc first.events mid.events (scan_blocks c P w ys later mid.known).1.events))

  pub scan_blocks-height :
      (bs : List BlockPb) (h : ℕ) (known : Known)
      → IsNumbered h bs
      → h + length bs < word
      → (scan_blocks c P w bs h known).0 ≡ h + length bs
  unfolding scan_blocks
  scan_blocks-height [] h known n small = omega arith
  scan_blocks-height (b ∷ bs) h known n small =
      let first = scan_txs c P w b.height b.transactions known in
      ap (λ (k : ℕ). (scan_blocks c P w bs k first.known).0)
        (height_next b.height h (length bs) n.0 small)
      ∙ scan_blocks-height bs (h + 1) first.known n.1 (omega arith)
      ∙ omega arith

module _ (c : Crypto) (P : Primitives) (w : Wallet) where
  scan_incoming-opened :
      (height : ℕ) (tx : SmsRequest) (known : Known) (plain : Bytes)
      → tx.to_address ≡ Wallet.address w
      → decrypt_incoming P w tx ≡ ok plain
      → scan_tx c P w height tx known ≡ record {
        known = learn known tx.from_address (fit 32 tx.ephemeral_pubkey);
        events =
            event_of
              (tx_hash_from_pb c tx)
              height
              tx
              true
              tx.from_address
              (fit 32 tx.ephemeral_pubkey)
              plain
            ∷ [];
      }
  unfolding scan_tx scan_incoming
  scan_incoming-opened height tx known plain mine opens =
      rw (scan_tx, (eq_bytes_iff tx.to_address (Wallet.address w)).1 mine, scan_incoming, opens)
        refl

  scan_outgoing-opened :
      (height : ℕ) (tx : SmsRequest) (known : Known) (plain pub_key : Bytes)
      → tx.to_address ≢ Wallet.address w
      → tx.from_address ≡ Wallet.address w
      → known_key known tx.to_address ≡ some pub_key
      → decrypt_outgoing P w tx pub_key ≡ ok plain
      → scan_tx c P w height tx known ≡ record {
        known = known;
        events = event_of (tx_hash_from_pb c tx) height tx false tx.to_address pub_key plain ∷ [];
      }
  unfolding scan_tx scan_outgoing
  scan_outgoing-opened height tx known plain pub_key other mine key opens =
      rw
        (
          scan_tx,
          eq_bytes_ne tx.to_address (Wallet.address w) other,
          (eq_bytes_iff tx.from_address (Wallet.address w)).1 mine,
          scan_outgoing,
          key,
          opens,
        )
        refl

module _ (c : Crypto) (P : Primitives) where
  -- A message that `a` has built for `b`, in a committed block: the scan of `b` reports it, with the
  -- hash of the transaction, and learns the key of `a`; the scan of `a`, which knows the key of `b`,
  -- reports it as sent. For matched keys of 32 bytes, a nonce of 12, a clock within 64 bits, and two
  -- different addresses.
  pub scan_tx-build_tx :
      (a b : Wallet) (nonce plaintext : Bytes) (sealed : Sealed) (now height : ℕ)
      (theirs own : Known)
      → AreMatched c P a.keys
      → AreMatched c P b.keys
      → length a.keys.encryption_public ≡ 32
      → length nonce ≡ 12
      → now < word
      → Wallet.address a ≢ Wallet.address b
      → encrypt P a.keys.encryption_private a.keys.encryption_public b.keys.encryption_public
          (some nonce)
          plaintext
        ≡ ok sealed
      → known_key own (Wallet.address b) ≡ some b.keys.encryption_public
      → let tx = (build_tx c a (Wallet.address b) sealed now).0 in
        let wire = pb_from_tx tx in
        (scan_tx c P b height wire theirs ≡ record {
          known = learn theirs (Wallet.address a) a.keys.encryption_public;
          events =
              event_of
                (Transaction.hash c tx)
                height
                wire
                true
                (Wallet.address a)
                a.keys.encryption_public
                plaintext
              ∷ [];
        })
        × (scan_tx c P a height wire own ≡ record {
          known = own;
          events =
              event_of
                (Transaction.hash c tx)
                height
                wire
                false
                (Wallet.address b)
                b.keys.encryption_public
                plaintext
              ∷ [];
        })
  unfolding build_tx pb_from_tx Transaction.sign next_nonce
  scan_tx-build_tx a b nonce plaintext sealed now height theirs own ma mb size twelve small apart e
        knows =
      let tx = (build_tx c a (Wallet.address b) sealed now).0 in
      let wire = pb_from_tx tx in
      let (opens, reopens) =
        decrypt-build_tx c P a b (Wallet.address b) nonce plaintext sealed now ma mb size twelve
          e in
      let (same_pub, same_nonce) =
        encrypt-parts P a.keys.encryption_private a.keys.encryption_public b.keys.encryption_public
          nonce plaintext sealed e in
      let typed =
        build_tx-IsTyped c a (Wallet.address b) sealed now (ap length same_nonce ∙ twelve)
          (ap length same_pub ∙ size) small in
      let key : fit 32 sealed.sender_x25519_pub ≡ a.keys.encryption_public =
        ap (fit 32) same_pub ∙ fit_full 32 a.keys.encryption_public size in
      let hashed = tx_hash_from_pb-pb_from_tx c tx typed in
      (
        scan_incoming-opened c P b height wire theirs plaintext refl opens
            ∙ ap₂
                (λ (k h : Bytes). record {
                  known = learn theirs (Wallet.address a) k;
                  events = event_of h height wire true (Wallet.address a) k plaintext ∷ [];
                })
                key hashed,
        scan_outgoing-opened c P a height wire own plaintext b.keys.encryption_public
              (λ same. apart (sym same)) refl knows reopens
            ∙ ap
                (λ (h : Bytes). record {
                  known = own;
                  events =
                      event_of h height wire false (Wallet.address b) b.keys.encryption_public
                        plaintext
                      ∷ [];
                })
                hashed,
      )
