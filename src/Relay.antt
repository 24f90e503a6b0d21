-- ===== src/Relay.antt =====
-- cmd/node/relay.go: announcements of gateways, the sync of a relay's ledger, and the prober. What
-- a gateway answers over the network is an argument, and so is the clock.
pub mod Sync
pub mod Health
pub mod Announce
use open_chat.Prelude.{
  ℕ, suc, ◌+◌, ◌≡◌, Bool, true, false, not, ◌&&◌, Option, none, some, List, [], ◌∷◌, ◌++◌, ltb,
  if◌then◌else◌, Result, ok, err, length,
}
use open_chat.Go.Bytes.{Bytes}
use open_chat.Go.BigEndian.{put_u64}
use open_chat.Go.Hex.{decode}
use open_chat.Go.Map.{Map, contains, lookup, insert}
use open_chat.Crypto.{Crypto}
use open_chat.Blockchain.Transaction.{as_public_key}
use open_chat.Blockchain.Block.{Block}
use open_chat.Blockchain.Chain.{Chain, commit_block}
use open_chat.Blockchain.Chain.Store.{BlockStore}
use open_chat.Mempool.{Mempool, RateLimiter, remove, or_zero}
use open_chat.Consensus.Engine.{Identity}
use open_chat.Consensus.Quorum.{quorum}
use open_chat.Gateway.Registry.{Registry, GatewayInfo, upsert, get, set_health}
use open_chat.Gateway.Wire.{BlockPb, block_from_pb}

pub record NodeAnnounce : Type 0 where
  pub info_json : Bytes
  pub announced_by : Bytes
  pub timestamp : ℕ
  pub signature : Bytes

-- `json.Unmarshal` of an announcement and of a gateway; `none` is an error.
pub record AnnounceCodec : Type 0 where
  pub unmarshal_announce : Bytes → Option NodeAnnounce
  pub unmarshal_info : Bytes → Option GatewayInfo

unfoldable pub announce_bytes : NodeAnnounce → Bytes
announce_bytes a = a.info_json ++ put_u64 a.timestamp

module _ (c : Crypto) where
  -- What a validator publishes for a gateway, before the envelope is marshalled.
  unfoldable pub new_announce : Identity → Bytes → ℕ → NodeAnnounce
  new_announce self info_json now =
      let ann : NodeAnnounce = record {
        info_json = info_json;
        announced_by = self.address;
        timestamp = now;
        signature = [];
      } in
      record ann { signature = c.sign self.priv (announce_bytes ann) }

  -- The checks of the listener on a decoded announcement.
  unfoldable pub vouched : List Bytes → NodeAnnounce → Bool
  vouched validators ann =
      if not (contains validators ann.announced_by)
      then false
      else elim (as_public_key (decode ann.announced_by)) [
        | err e ↦ false
        | ok pub_key ↦ c.verify pub_key (announce_bytes ann) ann.signature
      ]

  -- One turn of the listener's loop.
  unfoldable pub hear : AnnounceCodec → List Bytes → Registry → Bytes → ℕ → Registry
  hear J validators r message now = elim (J.unmarshal_announce message) [
    | none ↦ r
    | some ann ↦ if not (vouched validators ann) then r else elim (J.unmarshal_info ann.info_json) [
      | none ↦ r
      | some info ↦ upsert r (some info) now
    ]
  ]

-- What the prober keeps: the consecutive failures of each relay.
pub record Prober : Type 0 where
  pub registry : Registry
  pub failures : Map ℕ

unfoldable pub failures_of : Prober → Bytes → ℕ
failures_of p addr = or_zero (lookup p.failures addr)

-- The turn of the prober's loop for one relay, after its probe.
unfoldable pub note_probe : ℕ → Prober → Bytes → Bool → ℕ → Prober
note_probe max_failures p addr healthy now =
    let count = if healthy then 0 else failures_of p addr + 1 in
    let counted : Prober = record p { failures = insert p.failures addr count } in
    if not healthy && ltb count max_failures
    then counted
    else record counted { registry = set_health p.registry addr healthy now }

-- An answer to a `GetBlocks`: `none` is an error.
abbrev pub Answer : Type 0
Answer = Option (List BlockPb)

module _ (c : Crypto) (S : BlockStore) (R : RateLimiter) (validators : List Bytes) where
  -- A relay's ledger and pool.
  pub record Replica : Type 0 where
    pub chain : Chain c S
    pub pool : Mempool c R

  -- `CommitBlock`, and `Remove` where it succeeds; whether it did, and what is left.
  unfoldable pub ingest : Replica → Block → Bool × Replica
  ingest n b =
      let (answer, chain) = commit_block c S n.chain b (quorum (length validators)) validators in
      elim answer [
        | err e ↦ (false, record n { chain = chain })
        | ok _ ↦ (true, record n { chain = chain; pool = remove c R n.pool b.transactions })
      ]

  -- The blocks of one answer, up to the first that is not decoded or not committed.
  unfoldable pub ingest_all : Replica → List BlockPb → Bool × Replica
  ingest_all n [] = (true, n)
  ingest_all n (bp ∷ bps) = elim (block_from_pb bp) [
    | err e ↦ (false, n)
    | ok b ↦
        let (applied, n') = ingest n b in
        elim applied [ false ↦ (false, n') | true ↦ ingest_all n' bps ]
  ]

  -- The answers of one gateway in turn. An error or an empty answer ends them.
  unfoldable pub backfill_from : Replica → List Answer → Bool × Replica
  backfill_from n [] = (true, n)
  backfill_from n (none ∷ answers) = (true, n)
  backfill_from n (some [] ∷ answers) = (true, n)
  backfill_from n (some (bp ∷ bps) ∷ answers) =
      let (applied, n') = ingest_all n (bp ∷ bps) in
      elim applied [ false ↦ (false, n') | true ↦ backfill_from n' answers ]

  -- `backfillOnce`: `none` is a gateway that cannot be dialled, and a bad block ends the pass.
  unfoldable pub backfill_once : Replica → List (Option (List Answer)) → Replica
  backfill_once n [] = n
  backfill_once n (none ∷ gateways) = backfill_once n gateways
  backfill_once n (some answers ∷ gateways) =
      let (going, n') = backfill_from n answers in
      elim going [ false ↦ n' | true ↦ backfill_once n' gateways ]
