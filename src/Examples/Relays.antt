-- ===== src/Examples/Relays.antt =====
-- A relay that hears of a gateway, is probed, and fills its ledger.
use open_chat.Prelude.{
  ℕ, ◌+◌, ◌<◌, ◌≡◌, refl, true, false, List, [], ◌∷◌, Option, some, none, arith, ok,
}
use open_chat.Go.Bytes.{codes}
use open_chat.Go.Hex.{decode}
use open_chat.Go.Map.{lookup}
use open_chat.Crypto.{toy}
use open_chat.Blockchain.Transaction.{as_public_key}
use open_chat.Blockchain.Block.{genesis_block}
use open_chat.Blockchain.Chain.Linkage.{Link}
use open_chat.Mempool.{new_pool}
use open_chat.Consensus.Engine.{Identity}
use open_chat.Gateway.Registry.{GatewayInfo, empty, new_registry}
use open_chat.Gateway.Wire.{block_to_pb}
use open_chat.Relay.{
  AnnounceCodec, new_announce, Prober, failures_of, Answer, Replica, backfill_once,
}
use open_chat.Relay.Announce.{Hearing, hear-Hearing}
use open_chat.Relay.Sync.{IsLinkedReplica, backfill_once-IsLinked}
use open_chat.Examples.Toys.{alice, alice_key, bob, shelf, shelf-IsBlockStore, generous}

abbrev identity : Identity
identity = record { address = alice; priv = alice_key }

abbrev gateway : GatewayInfo
gateway = record {
  grpc_address = codes "a:1";
  validator_address = bob;
  role = codes "relay";
  node_version = codes "1";
  healthy = true;
  last_seen_unix = 0;
  last_probe_unix = 0;
}

-- Every message is alice's announcement of one gateway.
abbrev announcements : AnnounceCodec
announcements = record {
  unmarshal_announce = λ m. some (new_announce toy identity (codes "info") 7);
  unmarshal_info = λ m. some gateway;
}

hear-Hearing_example : Hearing toy announcements (alice ∷ []) empty (codes "m") 9 (codes "a:1")
hear-Hearing_example = hear-Hearing toy announcements (alice ∷ []) empty (codes "m") 9 (codes "a:1")

own_address : as_public_key (decode alice) ≡ ok (toy.public_key alice_key)
unfolding decode
own_address = refl

abbrev watched : Prober
watched = record { registry = new_registry (some gateway ∷ []) 1; failures = [] }

few : failures_of watched (codes "a:1") + 2 < 3
unfolding failures_of lookup
few = omega arith

abbrev replica : Replica toy shelf generous (alice ∷ [])
replica = record {
  chain = record {
    store = record { blocks = genesis_block toy ∷ []; nonces = []; broken = false };
    tip = 0;
    subs = [];
    next_id = 0;
  };
  pool = new_pool toy generous;
}

no_links : (h : ℕ) → h < 0 → Link toy shelf 1 (alice ∷ []) replica.chain.store h
no_links h below = absurd (omega arith)

linked : IsLinkedReplica toy shelf shelf-IsBlockStore generous (alice ∷ []) replica
unfolding open_chat.Consensus.Quorum.quorum
linked = record { tip_word = omega arith; links = no_links }

abbrev answers : List (Option (List Answer))
answers = none ∷ some (some (block_to_pb (genesis_block toy) ∷ []) ∷ none ∷ []) ∷ []

backfill_once-IsLinked_example :
    IsLinkedReplica toy shelf shelf-IsBlockStore generous
      (alice ∷ [])
      (backfill_once toy shelf generous (alice ∷ []) replica answers)
backfill_once-IsLinked_example =
    backfill_once-IsLinked toy shelf shelf-IsBlockStore generous (alice ∷ []) replica answers
      (tt, (((λ b e. tt, tt), (tt, tt)), tt)) linked
