-- ===== src/Examples/Servers.antt =====
-- A validator's gateway, a relay that registers with it, and what it serves.
use open_chat.Prelude.{
  ◌^◌, ◌≤◌, ◌⊎◌, true, if◌then◌else◌, ◌≤◌, ◌≡◌, refl, false, [], ◌∷◌, some, arith, length, ok, err,
  ◌==◌,
}
use open_chat.Go.Bytes.{Bytes, codes, eq_bytes}
use open_chat.Go.BigEndian.{put_u64}
use open_chat.Go.Hex.{decode}
use open_chat.Go.Int64.{distance, is_stale, sub64, is_negative, magnitude, nanoseconds, exceeds}
use open_chat.Go.Map.{contains}
use open_chat.Crypto.{toy}
use open_chat.Blockchain.Transaction
use open_chat.Blockchain.Transaction.{Transaction}
use open_chat.Blockchain.Block.{Block}
use open_chat.Gateway.Registry.{get, upsert, empty}
use open_chat.Gateway.Wire.{block_to_pb, block_from_pb, block_from_pb-block_to_pb}
use open_chat.Gateway.Proofs.{relay_bytes}
use open_chat.Gateway.Server.{
  Settings, RegisterRelayRequest, not_a_validator, validator_role, version_allowed,
  stream_auth_freshness, judge_relay, check_relay, register_relay, get_blocks, collect_blocks,
  batch_limit,
}
use open_chat.Gateway.Server.Relays.{
  Vetted, register_relay-ok, longer_endpoint, longer_version, shifted_registration,
}
use open_chat.Gateway.Server.Serving.{IsRun, get_blocks-IsRun}
use open_chat.Examples.Toys.{alice, alice_key, bob, greeting, shelf, Shelf}

abbrev block : Block
block = record {
  height = 0;
  prev_hash = [];
  timestamp = 5;
  proposer = bob;
  transactions = greeting 1 ∷ [];
  merkle_root = [];
  commit_sigs = [];
}

block_from_pb-block_to_pb_example : block_from_pb (block_to_pb block) ≡ ok block
block_from_pb-block_to_pb_example = block_from_pb-block_to_pb block (
  record {
    nonce_aead_len = refl;
    ephemeral_len = refl;
    nonce_word = omega arith;
    timestamp_word = omega arith;
  },
  tt,
)

abbrev settings : Bytes → Settings
settings role = record {
  role = role;
  node_version = codes "1.0";
  validator_set = bob ∷ [];
  allowed_versions = codes "1.0" ∷ codes "01.0" ∷ [];
}

abbrev registration : RegisterRelayRequest
registration = record {
  relay_address = alice;
  relay_grpc_address = codes "host:8";
  node_version = codes "1.0";
  node_commit = codes "ab";
  timestamp = 1000;
  signature =
      toy.sign alice_key (relay_bytes alice (codes "host:8") (codes "01.0") (codes "ab") 1000);
}

abbrev honest : RegisterRelayRequest
honest = longer_version registration (codes "0")

accepts_honest : (register_relay toy (settings validator_role) empty honest 2000 2).0 ≡ ok tt
unfolding register_relay judge_relay check_relay is_stale sub64 is_negative magnitude nanoseconds
    exceeds eq_bytes decode contains version_allowed relay_bytes put_u64 upsert
accepts_honest = refl

register_relay-ok_example :
    Vetted toy (settings validator_role) honest 2000
    × ((2 ^ 43 ≤ 2000) ⊎ (2 ^ 43 ≤ 1000) ⊎ (distance 2000 1000 ≤ 300000))
    × (get (register_relay toy (settings validator_role) empty honest 2000 2).1 (codes "host:8") ≡ (
        if eq_bytes (codes "host:8") (codes "host:8")
        then some (record {
          grpc_address = codes "host:8";
          validator_address = alice;
          role = codes "relay";
          node_version = codes "01.0";
          healthy = true;
          last_seen_unix = 2;
          last_probe_unix = 0;
        })
        else get empty (codes "host:8")))
register_relay-ok_example =
    register_relay-ok toy (settings validator_role) empty honest 2000 2 (codes "host:8")
      accepts_honest

shifted_registration_example :
    Vetted toy (settings validator_role) (longer_endpoint registration (codes "0")) 2000
unfolding version_allowed contains eq_bytes
shifted_registration_example =
    shifted_registration toy (settings validator_role) registration (codes "0") 2000
      register_relay-ok_example.0 refl refl

relay_refuses :
    (register_relay toy (settings (codes "relay")) empty honest 2000 2).0 ≡ err not_a_validator
unfolding register_relay judge_relay eq_bytes
relay_refuses = refl

alice_decodes_again : Transaction.as_public_key (decode alice) ≡ ok (toy.public_key alice_key)
unfolding decode
alice_decodes_again = refl

is_fresh : is_stale 2000 1000 stream_auth_freshness ≡ false
unfolding is_stale sub64 is_negative magnitude nanoseconds exceeds
is_fresh = refl

abbrev one_block : Shelf
one_block = record { blocks = block ∷ []; nonces = []; broken = false }

serves : get_blocks shelf one_block 0 3 ≡ ok (block_to_pb block ∷ [])
unfolding get_blocks collect_blocks batch_limit
serves = refl

get_blocks-IsRun_example :
    IsRun shelf one_block 0 (block_to_pb block ∷ [])
    × (length (block_to_pb block ∷ []) ≤ 500)
    × ((3 == 0) ≡ false → length (block_to_pb block ∷ []) ≤ 3)
get_blocks-IsRun_example = get_blocks-IsRun shelf one_block 0 3 (block_to_pb block ∷ []) serves
