-- ===== src/Relay/Sync.antt =====
-- A relay's ledger stays linked, whatever its validators and the network send it.
use open_chat.Prelude.{
  ◌≡◌, Option, none, some, List, [], ◌∷◌, All, length, ok, Result-cases, Bool-cases, inl, inr,
}
use open_chat.Go.Bytes.{Bytes}
use open_chat.Crypto.{Crypto}
use open_chat.Blockchain.Block.{Block}
use open_chat.Blockchain.Chain.{commit_block}
use open_chat.Blockchain.Chain.Store.{BlockStore, IsBlockStore}
use open_chat.Blockchain.Chain.Linkage.{IsLinked, commit_block-IsLinked}
use open_chat.Mempool.{RateLimiter}
use open_chat.Consensus.Quorum.{quorum}
use open_chat.Gateway.Wire.{BlockPb, block_from_pb}
use open_chat.Relay.{Answer, Replica, ingest, ingest_all, backfill_from, backfill_once}

-- Every block that the messages decode to can be stored.
module _ (Storable : Block → Type 0) where
  abbrev pub AreStorable : List BlockPb → Type 0
  AreStorable bps = All (λ (bp : BlockPb). (b : Block) → block_from_pb bp ≡ ok b → Storable b) bps

  abbrev pub IsAnswer : Answer → Type 0
  IsAnswer none = Unit {0}
  IsAnswer (some bps) = AreStorable bps

  abbrev pub AreAnswers : Option (List Answer) → Type 0
  AreAnswers none = Unit {0}
  AreAnswers (some answers) = All IsAnswer answers

module _ (c : Crypto) (S : BlockStore) {Storable : Block → Type 0} (laws : IsBlockStore S Storable)
    (R : RateLimiter) (validators : List Bytes) where
  abbrev pub IsLinkedReplica : Replica c S R validators → Type 0
  IsLinkedReplica n = IsLinked c S (quorum (length validators)) validators n.chain

  -- A block from gossip keeps the replica linked.
  pub ingest-IsLinked :
      (n : Replica c S R validators) (b : Block)
      → Storable b
      → IsLinkedReplica n
      → IsLinkedReplica (ingest c S R validators n b).1
  unfolding ingest
  ingest-IsLinked n b can linked =
      let kept =
        commit_block-IsLinked c S laws (quorum (length validators)) validators n.chain b can
          linked in
      elim (Result-cases (commit_block c S n.chain b (quorum (length validators)) validators).0) [
        | inl (e, refused) ↦ rw (refused, ingest) kept
        | inr (u, applied) ↦ rw (applied, ingest) kept
      ]

  ingest_all-IsLinked :
      (n : Replica c S R validators) (bps : List BlockPb)
      → AreStorable Storable bps
      → IsLinkedReplica n
      → IsLinkedReplica (ingest_all c S R validators n bps).1
  unfolding ingest_all
  ingest_all-IsLinked n [] can linked = linked
  ingest_all-IsLinked n (bp ∷ bps) can linked = elim (Result-cases (block_from_pb bp)) [
    | inl (e, garbled) ↦ rw (garbled, ingest_all) linked
    | inr (b, decoded) ↦
        let kept = ingest-IsLinked n b (can.0 b decoded) linked in
        elim (Bool-cases (ingest c S R validators n b).0) [
          | inr stopped ↦ rw (decoded, ingest_all) (rw stopped kept)
          | inl applied ↦
              rw (decoded, ingest_all)
                (rw applied (ingest_all-IsLinked (ingest c S R validators n b).1 bps can.1 kept))
        ]
  ]

  backfill_from-IsLinked :
      (n : Replica c S R validators) (answers : List Answer)
      → All (IsAnswer Storable) answers
      → IsLinkedReplica n
      → IsLinkedReplica (backfill_from c S R validators n answers).1
  unfolding backfill_from
  backfill_from-IsLinked n [] can linked = linked
  backfill_from-IsLinked n (none ∷ answers) can linked = linked
  backfill_from-IsLinked n (some [] ∷ answers) can linked = linked
  backfill_from-IsLinked n (some (bp ∷ bps) ∷ answers) can linked =
      let kept = ingest_all-IsLinked n (bp ∷ bps) can.0 linked in
      elim (Bool-cases (ingest_all c S R validators n (bp ∷ bps)).0) [
        | inr stopped ↦ rw (stopped, backfill_from) kept
        | inl applied ↦
            rw (applied, backfill_from)
              (backfill_from-IsLinked (ingest_all c S R validators n (bp ∷ bps)).1 answers can.1
                kept)
      ]

  -- A pass of the backfill, whatever storable blocks the gateways answer, leaves a linked replica linked: each block
  -- names the hash of the one below it and has a quorum of the configured validators.
  pub backfill_once-IsLinked :
      (n : Replica c S R validators) (gateways : List (Option (List Answer)))
      → All (AreAnswers Storable) gateways
      → IsLinkedReplica n
      → IsLinkedReplica (backfill_once c S R validators n gateways)
  unfolding backfill_once
  backfill_once-IsLinked n [] can linked = linked
  backfill_once-IsLinked n (none ∷ gateways) can linked =
      backfill_once-IsLinked n gateways can.1 linked
  backfill_once-IsLinked n (some answers ∷ gateways) can linked =
      let kept = backfill_from-IsLinked n answers can.0 linked in
      elim (Bool-cases (backfill_from c S R validators n answers).0) [
        | inr stopped ↦ rw (stopped, backfill_once) kept
        | inl going ↦
            rw (going, backfill_once)
              (backfill_once-IsLinked (backfill_from c S R validators n answers).1 gateways can.1
                kept)
      ]
