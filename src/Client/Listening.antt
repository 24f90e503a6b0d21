-- ===== src/Client/Listening.antt =====
-- pkg/client/client.go, Listen: the messages that arrive over one stream after another. The streams,
-- the failovers, the context and the callback's answers are arguments.
pub mod Delivering
use open_chat.Prelude.{
  ℕ, zero, suc, Bool, true, false, Option, none, some, List, [], ◌∷◌, ◌++◌, if◌then◌else◌, Result,
  ok, err,
}
use open_chat.Go.Bytes.{Bytes}
use open_chat.Go.Hex
use open_chat.Crypto.{Crypto}
use open_chat.Gateway.Wire.{SmsRequest}
use open_chat.Gateway.Proofs.{auth_bytes}
use open_chat.Gateway.Server.{StreamRequest}
use open_chat.Client.Primitives.{Primitives}
use open_chat.Client.Wallet
use open_chat.Client.Wallet.{Wallet}
use open_chat.Client.Envelope.{decrypt_incoming}

pub record IncomingMessage : Type 0 where
  pub from : Bytes
  pub from_x25519_pub_hex : Bytes
  pub plaintext : Bytes
  pub tx_hash : Bytes
  pub block_height : ℕ

-- A message of the stream on the wire; `none` where it carries no transaction.
pub record StreamItem : Type 0 where
  pub message : Option SmsRequest
  pub tx_hash : Bytes
  pub block_height : ℕ

-- The callback, by what it has been given so far, the latest last: whether to go on.
abbrev pub Callback : Type 0
Callback = List IncomingMessage → Bool

unfoldable pub stream_request : Crypto → Wallet → ℕ → StreamRequest
stream_request c w now = record {
  address = Wallet.address w;
  timestamp = now;
  signature = c.sign w.keys.signing_private (auth_bytes (Wallet.address w) now);
}

module _ (P : Primitives) (w : Wallet) where
  -- What the callback gets for an item, if anything.
  unfoldable pub received : StreamItem → Option IncomingMessage
  received item = elim item.message [
    | none ↦ none
    | some msg ↦ elim (decrypt_incoming P w msg) [
      | err _ ↦ none
      | ok plain ↦ some (record {
        from = msg.from_address;
        from_x25519_pub_hex = Hex.encode msg.ephemeral_pubkey;
        plaintext = plain;
        tx_hash = item.tx_hash;
        block_height = item.block_height;
      })
    ]
  ]

  -- Whether the callback stopped it, and all that the callback has got; the stream breaks at its end.
  unfoldable pub consume :
      Callback → List IncomingMessage → List StreamItem → Bool × List IncomingMessage
  consume on_message got [] = (false, got)
  consume on_message got (item ∷ items) = elim (received item) [
    | none ↦ consume on_message got items
    | some m ↦
        let now = got ++ m ∷ [] in
        let rest = consume on_message now items in if on_message now then rest else (true, now)
  ]

-- How a listener ends.
pub data Halt : Type 0 where
  stopped over no_gateway listening : Halt

-- By the turn of the loop: whether the context is over at its start and behind a failure, the stream
-- if it opens, and whether the failover behind it ends in a connection.
pub record Streams : Type 0 where
  pub is_over : ℕ → Bool
  pub opened : ℕ → Option (List StreamItem)
  pub is_over_after : ℕ → Bool
  pub fails_over : ℕ → Bool

module _ (P : Primitives) (w : Wallet) (on_message : Callback) (s : Streams) where
  -- A turn's stream, if it opens.
  unfoldable pub hear : ℕ → List IncomingMessage → Bool × List IncomingMessage
  hear turn got = elim (s.opened turn) [
    | none ↦ (false, got)
    | some items ↦ consume P w on_message got items
  ]

  unfoldable pub listen : ℕ → ℕ → List IncomingMessage → Halt × List IncomingMessage
  listen zero turn got = (listening, got)
  listen (suc fuel) turn got =
      let (asked, now) = hear turn got in
      let rest = listen fuel (suc turn) now in
      if s.is_over turn
      then (over, got)
      else if asked
      then (stopped, now)
      else if s.is_over_after turn
      then (over, now)
      else if s.fails_over turn
      then rest
      else (no_gateway, now)
