-- ===== src/Examples/Clients.antt =====
-- What clients send, recover and hear, at concrete values.
use open_chat.Prelude.{
  ℕ, ◌==◌, ◌<◌, ◌≡◌, ◌≢◌, leb, if◌then◌else◌, All-append, refl, true, false, none, some, [], ◌∷◌,
  arith, ok, err,
}
use open_chat.Go.Bytes.{Bytes, eq_bytes, eq_bytes_iff, codes}
use open_chat.Go.Hex.{encode}
use open_chat.Go.Map.{contains, lookup}
use open_chat.Crypto.{toy}
use open_chat.Blockchain.Transaction
use open_chat.Blockchain.Transaction.{Transaction}
use open_chat.Gateway.Wire.{pb_from_tx}
use open_chat.Client.Keys
use open_chat.Client.Keys.{KeyPair, AreMatched, derive_key_pair, derive_key_pair-AreMatched}
use open_chat.Client.Wallet
use open_chat.Client.Envelope.{build_tx}
use open_chat.Client.Discovery.{Discovery, World, connected, rounds, failover}
use open_chat.Client.Discovery.Reaching.{
  IsCandidate, IsConnection, rounds-reach, rounds-IsConnection, failover_stuck,
}
use open_chat.Client.ContactCode.{
  my_contact_code, parse_contact_code, contact_of, parse_contact_code-my_contact_code,
}
use open_chat.Client.History.{Known, status, known_key, learn, event_of, scan_tx}
use open_chat.Client.History.Scanning.{scan_tx-build_tx}
use open_chat.Client.Sending.{Attempts, IsSound, send_message, send_message-IsSound}
use open_chat.Client.Listening.{Streams}
use open_chat.Client.Listening.Delivering.{Delivered, listen_lem}
use open_chat.Examples.Toys.{copies}
use open_chat.Examples.Keyrings.{
  sums, anna, ben, anna-AreMatched, ben-AreMatched, sealed, sealed_lem, copies-IsBytes,
}

differ : Wallet.address anna ≢ Wallet.address ben
unfolding Wallet.address Keys.address encode eq_bytes
differ e = absurd (ground (arith, (eq_bytes_iff (Wallet.address anna) (Wallet.address ben)).1 e))

abbrev pub letter : Transaction
letter = (build_tx toy anna (Wallet.address ben) sealed 1000).0

abbrev pub no_keys : Known
no_keys = some []

abbrev bens_key : Known
bens_key = some ((Wallet.address ben, ben.keys.encryption_public) ∷ [])

bens_key_lem : known_key bens_key (Wallet.address ben) ≡ some ben.keys.encryption_public
unfolding lookup Wallet.address Keys.address encode eq_bytes
bens_key_lem = refl

scan_tx-build_tx_example :
    (scan_tx toy sums ben 5 (pb_from_tx letter) no_keys ≡ record {
      known = learn no_keys (Wallet.address anna) anna.keys.encryption_public;
      events =
          event_of
            (Transaction.hash toy letter)
            5
            (pb_from_tx letter)
            true
            (Wallet.address anna)
            anna.keys.encryption_public
            (codes "hi")
          ∷ [];
    })
    × (scan_tx toy sums anna 5 (pb_from_tx letter) bens_key ≡ record {
      known = bens_key;
      events =
          event_of
            (Transaction.hash toy letter)
            5
            (pb_from_tx letter)
            false
            (Wallet.address ben)
            ben.keys.encryption_public
            (codes "hi")
          ∷ [];
    })
scan_tx-build_tx_example =
    scan_tx-build_tx toy sums anna ben (copies 12 0) (codes "hi") sealed 1000 5 no_keys bens_key
      anna-AreMatched ben-AreMatched refl refl (omega arith) differ sealed_lem bens_key_lem

-- Two gateways, of which the second answers from the third round on.
abbrev known_two : Discovery
known_two = record {
  bootstrap = codes "a" ∷ codes "b" ∷ [];
  cache = [];
  current = none;
  current_addr = [];
}

abbrev slow_world : World
slow_world = record {
  shuffle = λ round l. l;
  is_reachable = λ round a. if leb 2 round then eq_bytes a (codes "b") else false;
  is_done = λ round. leb 3 round;
  listed = λ gateway. none;
}

b-IsCandidate : IsCandidate known_two [] (codes "b")
unfolding contains eq_bytes
b-IsCandidate = (refl, λ e. absurd cc, λ e. absurd cc)

b_answers : slow_world.is_reachable 2 (codes "b") ≡ true
unfolding eq_bytes
b_answers = refl

rounds-reach_example : (d' : Discovery) × (rounds slow_world [] 3 0 500 known_two ≡ connected d')
rounds-reach_example =
    rounds-reach slow_world [] 2 3 0 500 known_two (codes "b") (λ r l a. refl) (omega arith)
      b-IsCandidate b_answers (λ r h. ground arith)

rounds-IsConnection_example :
    IsConnection known_two (codes "a") (rounds slow_world (codes "a") 3 0 500 known_two)
rounds-IsConnection_example =
    rounds-IsConnection slow_world (codes "a") 3 0 500 known_two (λ r l a. refl)

-- A client that knows one gateway, and fails over from it.
abbrev lonely : Discovery
lonely = record {
  bootstrap = codes "a" ∷ [];
  cache = codes "a" ∷ [];
  current = some (codes "a");
  current_addr = codes "a";
}

lonely_lem : (a : Bytes) → ¬ IsCandidate lonely (codes "a") a
unfolding contains
lonely_lem a (member, ne, apart) = ground (arith, eq_bytes_iff (codes "a") a)

abbrev open_world : World
open_world = record {
  shuffle = λ round l. l;
  is_reachable = λ round a. true;
  is_done = λ round. false;
  listed = λ gateway. none;
}

failover_stuck_example : failover open_world 1000 lonely ≢ connected lonely
failover_stuck_example = failover_stuck open_world 1000 lonely lonely (λ r l a. refl) lonely_lem

parse_contact_code-my_contact_code_example :
    parse_contact_code (my_contact_code anna)
    ≡ ok (contact_of anna.keys.signing_public anna.keys.encryption_public)
parse_contact_code-my_contact_code_example =
    parse_contact_code-my_contact_code anna
      (All-append (λ (x : ℕ). x < 256) (copies 32 1) (copies 32 3)
        (copies-IsBytes 32 1 (omega arith)) (copies-IsBytes 32 3 (omega arith)))
      refl refl

-- The first gateway is gone; the second accepts.
abbrev flaky : Attempts
flaky = record {
  is_connected = true;
  submit = λ req. err (status 14);
  fails_over = true;
  resubmit = λ req. ok (record { accepted = true; tx_hash = codes "h"; error = [] });
}

send_message-IsSound_example : IsSound toy flaky (
    send_message toy sums flaky anna
      (Wallet.address ben)
      ben.keys.encryption_public
      (some (copies 12 0))
      (codes "hi")
      1000)
send_message-IsSound_example =
    send_message-IsSound toy sums flaky anna (Wallet.address ben) ben.keys.encryption_public
      (copies 12 0) (codes "hi") 1000 anna-AreMatched (copies-IsBytes 32 1 (omega arith)) refl refl
      refl (omega arith)

-- Two streams: the first breaks behind the letter, the second does not open.
abbrev broken_streams : Streams
broken_streams = record {
  is_over = λ turn. false;
  opened = λ turn.
      if turn == 0
      then some (
          record { message = none; tx_hash = []; block_height = 3 }
          ∷ record { message = some (pb_from_tx letter); tx_hash = codes "h"; block_height = 4 }
          ∷ [])
      else none;
  is_over_after = λ turn. false;
  fails_over = λ turn. true;
}

listen_lem_example : Delivered sums ben broken_streams 2 0 []
listen_lem_example = listen_lem sums ben broken_streams 2 0 []

-- The keys of a mnemonic: the scalar is clamped.
abbrev derived : KeyPair
derived = record {
  mnemonic = codes "words";
  signing_public = copies 32 65;
  signing_private = copies 32 65;
  encryption_public = 64 ∷ copies 31 65;
  encryption_private = 64 ∷ copies 31 65;
}

derived_lem : derive_key_pair toy sums (codes "words") [] ≡ ok derived
unfolding derive_key_pair Keys.keys_of_seed Keys.derive_ed25519 Keys.hkdf_expand Keys.derive_x25519
    Keys.clamp
derived_lem = refl

derive_key_pair-AreMatched_example : AreMatched toy sums derived
derive_key_pair-AreMatched_example =
    derive_key_pair-AreMatched toy sums (codes "words") [] derived derived_lem
