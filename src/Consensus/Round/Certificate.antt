-- ===== src/Consensus/Round/Certificate.antt =====
-- A quorum of counted precommits makes a certificate that the ledger accepts.
use open_chat.Prelude.{
  ℕ, ◌+◌, ◌≤◌, ◌≡◌, refl, ◌∙◌, true, false, List, [], ◌∷◌, arith, length, count_if, All, All-mono,
  Bool-cases, inl, inr,
}
use open_chat.Go.Bytes.{Bytes, eq_bytes, eq_bytes_iff}
use open_chat.Go.Map.{Map, contains, keys, values, IsDistinct}
use open_chat.Crypto.{Crypto}
use open_chat.Blockchain.Block.{
  Block, ValidatorSig, hash, header_bytes, sig_verifies, counts, count_valid, verify_commit_quorum,
}
use open_chat.Consensus.Vote.{Vote, precommit, sig_verifies-verify}
use open_chat.Consensus.Engine.{Engine, round_key, bucket_of, count_votes}
use open_chat.Consensus.Engine.Rounds.{round_key_inj}
use open_chat.Consensus.Engine.Votes.{IsCounted, IsSound}
use open_chat.Consensus.Round.{collect}

length-collect :
    (round : ℕ) (block_hash : Bytes) (m : Map Vote)
    → length (collect round block_hash m)
      ≡ count_if (λ (v : Vote). eq_bytes v.block_hash block_hash) (values m)
unfolding collect
length-collect round block_hash [] = refl
length-collect round block_hash ((voter, v) ∷ m) = ground (arith, length-collect round block_hash m)

collect-hit :
    (round : ℕ) (block_hash voter : Bytes) (v : Vote) (m : Map Vote)
    → eq_bytes v.block_hash block_hash ≡ true
    → collect round block_hash ((voter, v) ∷ m)
      ≡ record { validator = voter; round = round; signature = v.signature }
        ∷ collect round block_hash m
unfolding collect
collect-hit round block_hash voter v m h = rw h refl

collect-miss :
    (round : ℕ) (block_hash voter : Bytes) (v : Vote) (m : Map Vote)
    → eq_bytes v.block_hash block_hash ≡ false
    → collect round block_hash ((voter, v) ∷ m) ≡ collect round block_hash m
unfolding collect
collect-miss round block_hash voter v m h = rw h refl

seen-fresh :
    (m : Map Vote) (seen : List Bytes) (voter : Bytes)
    → contains (keys m) voter ≡ false
    → All (λ (e : Bytes × Vote). contains seen e.0 ≡ false) m
    → All (λ (e : Bytes × Vote). contains (voter ∷ seen) e.0 ≡ false) m
unfolding contains
seen-fresh [] seen voter h a = tt
seen-fresh ((k, v) ∷ m) seen voter h a = (
  ground (arith, eq_bytes_iff voter k, eq_bytes_iff k voter),
  seen-fresh m seen voter (ground arith) a.1,
)

module _ (c : Crypto) (vs : List Bytes) (height round : ℕ) (block_hash : Bytes) where
  abbrev Counted : Bytes → Vote → Type 0
  Counted = IsCounted c vs precommit (round_key height round)

  -- A counted precommit for the hash is a commit signature that verifies.
  Counted-verifies :
      (voter : Bytes) (v : Vote)
      → Counted voter v
      → eq_bytes v.block_hash block_hash ≡ true
      → sig_verifies c height block_hash
          (record { validator = voter; round = round; signature = v.signature })
        ≡ true
  Counted-verifies voter v k same =
      let (eh, er) = round_key_inj v.height v.round height round k.own_key in
      let agreed = sig_verifies-verify c v k.typed ∙ k.verified in
      let eb = (eq_bytes_iff v.block_hash block_hash).0 same in
      rw (← eh, ← er, ← eb, ← k.own_voter) agreed

  Counted-counts :
      (seen : List Bytes) (voter : Bytes) (v : Vote)
      → Counted voter v
      → eq_bytes v.block_hash block_hash ≡ true
      → contains seen voter ≡ false
      → counts c height block_hash vs seen
          (record { validator = voter; round = round; signature = v.signature })
        ≡ true
  unfolding counts
  Counted-counts seen voter v k same new =
      let member : contains vs voter ≡ true = rw k.own_voter at k.member in
      ground (arith, Counted-verifies voter v k same)

  count_valid-counted :
      (cs : ValidatorSig) (seen : List Bytes) (valid : ℕ) (rest : List ValidatorSig)
      → counts c height block_hash vs seen cs ≡ true
      → count_valid c height block_hash vs seen valid (cs ∷ rest)
        ≡ count_valid c height block_hash vs (cs.validator ∷ seen) (valid + 1) rest
  unfolding count_valid
  count_valid-counted cs seen valid rest h = rw h refl

  -- Every collected signature is counted.
  count_valid-collect :
      (m : Map Vote) (seen : List Bytes) (valid : ℕ)
      → IsDistinct (keys m)
      → All (λ (e : Bytes × Vote). Counted e.0 e.1) m
      → All (λ (e : Bytes × Vote). contains seen e.0 ≡ false) m
      → count_valid c height block_hash vs seen valid (collect round block_hash m)
        ≡ valid + length (collect round block_hash m)
  count_valid-collect [] seen valid d k new = unfold count_valid collect in omega arith
  count_valid-collect ((voter, v) ∷ m) seen valid d k new =
      elim (Bool-cases (eq_bytes v.block_hash block_hash)) [
        | inr different ↦
            rw (collect-miss round block_hash voter v m different)
              (count_valid-collect m seen valid d.1 k.1 new.1)
        | inl same ↦
            let counted = Counted-counts seen voter v k.0 same new.0 in
            let rest =
              count_valid-collect m (voter ∷ seen) (valid + 1) d.1 k.1
                (seen-fresh m seen voter d.0 new.1) in
            rw (collect-hit round block_hash voter v m same)
              (rw (count_valid-counted _ seen valid _ counted) (omega (arith, rest)))
      ]

-- Precommits of a quorum of voters for the block's hash, in an engine that is sound, make the
-- block pass `VerifyCommitQuorum` with the certificate that `runRound` collects.
pub certificate_verifies :
    (c : Crypto) (vs : List Bytes) (e : Engine) (b : Block) (round quorum : ℕ)
    → IsSound c vs e
    → quorum ≤ count_votes e.precommits (round_key b.height round) (hash c b)
    → verify_commit_quorum c
        (record b {
          commit_sigs =
              collect round (hash c b) (bucket_of e.precommits (round_key b.height round));
        })
        quorum
        vs
      ≡ true
unfolding verify_commit_quorum count_votes contains hash header_bytes
certificate_verifies c vs e b round quorum s enough =
    let m = bucket_of e.precommits (round_key b.height round) in
    let (d, k) = s.precommits_sound (round_key b.height round) in
    let exact =
      count_valid-collect c vs b.height round (hash c b) m [] 0 d k (All-mono m (λ e x. refl) k) in
    let size = length-collect round (hash c b) m in ground (arith, exact, size)
