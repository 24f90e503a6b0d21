-- ===== src/Client/Sending.antt =====
-- pkg/client/client.go, SendMessage: one message built once, and handed to at most two gateways.
use open_chat.Prelude.{
  subst, sym, ap, ◌∙◌, ◌⊎◌, Bool-cases, ◌<◌, ℕ, ◌≤◌, ◌≡◌, refl, Bool, true, not, Option, some, List,
  [], ◌∷◌, if◌then◌else◌, arith, length, All, Result, ok, err, ◌⊎◌, ◌<◌, Bool-cases, Result-cases,
  inl, inr,
}
use open_chat.Go.Bytes.{Bytes, IsBytes}
use open_chat.Go.Int64.{word}
use open_chat.Crypto.{Crypto}
use open_chat.Gateway.Wire.{SmsRequest, pb_from_tx, tx_from_pb, tx_from_pb-pb_from_tx}
use open_chat.Blockchain.Transaction
use open_chat.Blockchain.Transaction.{Transaction}
use open_chat.Client.Keys.{AreMatched}
use open_chat.Client.Primitives.{Primitives}
use open_chat.Client.Wallet.{Wallet}
use open_chat.Client.Sealing.{SealError, encrypt, encrypt-parts}
use open_chat.Client.Envelope.{build_tx, build_tx-IsTyped, verify-build_tx}
use open_chat.Client.History.{RpcError, is_transport_error}

pub record SmsResponse : Type 0 where
  pub accepted : Bool
  pub tx_hash : Bytes
  pub error : Bytes

pub data SendError : Type 0 where
  not_connected failover_exhausted : SendError
  unsealed : SealError → SendError
  rpc : RpcError → SendError
  rejected : Bytes → SendError

-- The gateways during one send: whether there is a connection, the answer of the first gateway,
-- whether the failover finds another one, and its answer.
pub record Attempts : Type 0 where
  pub is_connected : Bool
  pub submit : SmsRequest → Result RpcError SmsResponse
  pub fails_over : Bool
  pub resubmit : SmsRequest → Result RpcError SmsResponse

unfoldable pub accepted_hash : Result RpcError SmsResponse → Result SendError Bytes
accepted_hash (err why) = err (rpc why)
accepted_hash (ok resp) = if not resp.accepted then err (rejected resp.error) else ok resp.tx_hash

-- The result, and the requests that were submitted.
unfoldable pub submit_twice : Attempts → SmsRequest → Result SendError Bytes × List SmsRequest
submit_twice net req =
    if is_transport_error (net.submit req)
    then if net.fails_over
      then (accepted_hash (net.resubmit req), req ∷ req ∷ [])
      else (err failover_exhausted, req ∷ [])
    else (accepted_hash (net.submit req), req ∷ [])

pub record Sent : Type 0 where
  pub result : Result SendError Bytes
  pub wallet : Wallet
  pub submitted : List SmsRequest

module _ (c : Crypto) (P : Primitives) where
  unfoldable pub send_message : Attempts → Wallet → Bytes → Bytes → Option Bytes → Bytes → ℕ → Sent
  send_message net w to_address to_x25519_pub random plaintext now =
      if not net.is_connected
      then record { result = err not_connected; wallet = w; submitted = [] }
      else elim (encrypt P w.keys.encryption_private w.keys.encryption_public to_x25519_pub random
          plaintext) [
            | err why ↦ record { result = err (unsealed why); wallet = w; submitted = [] }
            | ok sealed ↦
                let (tx, w') = build_tx c w to_address sealed now in
                let (answer, requests) = submit_twice net (pb_from_tx tx) in
                record { result = answer; wallet = w'; submitted = requests }
          ]

-- A gateway answered to the request that it accepts it, with this hash.
abbrev pub IsAcceptance : Attempts → SmsRequest → Bytes → SmsResponse → Type 0
IsAcceptance net req hash resp =
    ((net.submit req ≡ ok resp) ⊎ (net.resubmit req ≡ ok resp))
    × (resp.accepted ≡ true)
    × (resp.tx_hash ≡ hash)

accepted_hash-ok :
    (answer : Result RpcError SmsResponse) (hash : Bytes)
    → accepted_hash answer ≡ ok hash
    → (resp : SmsResponse) × (answer ≡ ok resp) × (resp.accepted ≡ true) × (resp.tx_hash ≡ hash)
unfolding accepted_hash
accepted_hash-ok (err why) hash e = cc
accepted_hash-ok (ok resp) hash e = (resp, refl, ground arith, ground arith)

submit_twice_lem :
    (net : Attempts) (req : SmsRequest)
    → (1 ≤ length (submit_twice net req).1)
      × (length (submit_twice net req).1 ≤ 2)
      × All (λ (r : SmsRequest). r ≡ req) (submit_twice net req).1
      × ((hash : Bytes)
          → (submit_twice net req).0 ≡ ok hash
          → (resp : SmsResponse) × IsAcceptance net req hash resp)
unfolding submit_twice
submit_twice_lem net req = elim (Bool-cases (is_transport_error (net.submit req))) [
  | inr fine ↦ rw (fine) (
    omega arith,
    omega arith,
    (refl, tt),
    λ hash e.
        let (resp, came, agreed, same) = accepted_hash-ok (net.submit req) hash e in
        (resp, (inl came, agreed, same)),
  )
  | inl broken ↦ elim (Bool-cases net.fails_over) [
    | inl over ↦
        rw (broken, over)
          (
            omega arith,
            omega arith,
            (refl, (refl, tt)),
            λ hash e.
                let (resp, came, agreed, same) = accepted_hash-ok (net.resubmit req) hash e in
                (resp, (inr came, agreed, same)),
          )
    | inr alone ↦ rw (broken, alone) (omega arith, omega arith, (refl, tt), λ hash e. absurd cc)
  ]
]

same_requests :
    (Q : SmsRequest → Type 0) (req : SmsRequest) (rs : List SmsRequest)
    → Q req
    → All (λ (r : SmsRequest). r ≡ req) rs
    → All Q rs
same_requests Q req [] q h = tt
same_requests Q req (r ∷ rs) q h = (subst Q (sym h.0) q, same_requests Q req rs q h.1)

-- What a result promises of a request: a hash, that a gateway has accepted it.
abbrev pub IsBacked : Attempts → SmsRequest → Result SendError Bytes → Type 0
IsBacked net req (ok hash) = (resp : SmsResponse) × IsAcceptance net req hash resp
IsBacked net req (err why) = Unit {0}

-- How many requests a result takes at least.
abbrev pub least : Result SendError Bytes → ℕ
least (ok hash) = 1
least (err why) = 0

backed :
    (net : Attempts) (req : SmsRequest) (result : Result SendError Bytes)
    → ((hash : Bytes) → result ≡ ok hash → (resp : SmsResponse) × IsAcceptance net req hash resp)
    → IsBacked net req result
backed net req (ok hash) f = f hash refl
backed net req (err why) f = tt

least_bound : (result : Result SendError Bytes) → least result ≤ 1
least_bound (ok hash) = omega arith
least_bound (err why) = omega arith

abbrev pub IsSound : Crypto → Attempts → Sent → Type 0
IsSound c net sent =
    (least sent.result ≤ length sent.submitted)
    × (length sent.submitted ≤ 2)
    × All
        (λ (r : SmsRequest).
          (tx : Transaction) × (tx_from_pb r ≡ ok tx)
          × (Transaction.verify c tx ≡ ok tt)
          × IsBacked net r sent.result)
        sent.submitted

module _ (c : Crypto) (P : Primitives) where
  -- Every request that a send submits is a transaction that every node verifies; there are two at
  -- most, and a send that returns a hash has submitted one, which a gateway has accepted under that
  -- hash. For matched keys of 32 bytes, a nonce of 12 and a clock within 64 bits.
  pub send_message-IsSound :
      (net : Attempts) (w : Wallet) (to key nonce plaintext : Bytes) (now : ℕ)
      → AreMatched c P w.keys
      → IsBytes w.keys.signing_public
      → length w.keys.signing_public ≡ 32
      → length w.keys.encryption_public ≡ 32
      → length nonce ≡ 12
      → now < word
      → IsSound c net (send_message c P net w to key (some nonce) plaintext now)
  unfolding send_message
  send_message-IsSound net w to key nonce plaintext now matched bytes ls le ln small =
      elim (Bool-cases net.is_connected) [
        | inr offline ↦ rw (send_message, offline) (omega arith, omega arith, tt)
        | inl online ↦
            elim (Result-cases (
              encrypt P w.keys.encryption_private w.keys.encryption_public key (some nonce)
                plaintext)) [
                  | inl (why, unsealed_) ↦
                      rw (send_message, online, unsealed_) (omega arith, omega arith, tt)
                  | inr (sealed, done) ↦
                      let tx = (build_tx c w to sealed now).0 in
                      let result = (submit_twice net (pb_from_tx tx)).0 in
                      let (one, most, same, came) = submit_twice_lem net (pb_from_tx tx) in
                      let (same_pub, same_nonce) =
                        encrypt-parts P w.keys.encryption_private w.keys.encryption_public key nonce
                          plaintext sealed done in
                      let typed =
                        build_tx-IsTyped c w to sealed now (ap length same_nonce ∙ ln)
                          (ap length same_pub ∙ le) small in
                      rw (send_message, online, done)
                        (
                          omega (arith, least_bound result, one),
                          most,
                          same_requests _ (pb_from_tx tx) (submit_twice net (pb_from_tx tx)).1
                              (
                                tx,
                                tx_from_pb-pb_from_tx tx typed,
                                verify-build_tx c P w to sealed now matched bytes ls,
                                backed net (pb_from_tx tx) result came,
                              )
                              same,
                        )
                ]
      ]
