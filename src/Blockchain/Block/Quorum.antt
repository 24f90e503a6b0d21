-- ===== src/Blockchain/Block/Quorum.antt =====
-- `VerifyCommitQuorum` counts exactly the validators that have a signature that verifies.
use open_chat.Prelude.{
  ℕ, ◌+◌, ◌≤◌, ◌≡◌, refl, ◌≢◌, Bool, true, false, ◌&&◌, List, [], ◌∷◌, arith, leb, if◌then◌else◌,
  length, count_if, Bool-cases, inl, inr,
}
use open_chat.Go.Bytes.{Bytes, eq_bytes, eq_bytes_iff, eq_bytes_refl}
use open_chat.Go.Map.{contains, IsDistinct}
use open_chat.Crypto.{Crypto}
use open_chat.Blockchain.Block.{
  Block, ValidatorSig, sig_verifies, counts, count_valid, verify_commit_quorum, hash,
}

-- `p` holds of one member more than `q` does, and they agree on the others.
count_if-suc :
    (p q : Bytes → Bool) (k : Bytes) (vs : List Bytes)
    → IsDistinct vs
    → p k ≡ true
    → q k ≡ false
    → ((v : Bytes) → k ≢ v → p v ≡ q v)
    → count_if p vs ≡ (if contains vs k then 1 else 0) + count_if q vs
unfolding contains
count_if-suc p q k [] d hp hq agree = refl
count_if-suc p q k (v ∷ vs) d hp hq agree =
    ground (arith, eq_bytes_iff v k, agree v, count_if-suc p q k vs d.1 hp hq agree)

count_if-cong :
    (p q : Bytes → Bool) (vs : List Bytes)
    → ((v : Bytes) → contains vs v ≡ true → p v ≡ q v)
    → count_if p vs ≡ count_if q vs
unfolding contains
count_if-cong p q [] agree = refl
count_if-cong p q (v ∷ vs) agree =
    let here = agree v (ground (arith, eq_bytes_refl v)) in
    ground (arith, here, count_if-cong p q vs (λ w h. agree w (ground (arith, eq_bytes_iff v w))))

-- Both of two tests hold of more members than the two counts exceed the list by.
pub count_if-both :
    (p q : Bytes → Bool) (vs : List Bytes)
    → count_if p vs + count_if q vs ≤ length vs + count_if (λ v. p v && q v) vs
count_if-both p q [] = omega arith
count_if-both p q (v ∷ vs) = ground (arith, count_if-both p q vs)

-- The address has a signature in the list that verifies.
abbrev pub signed_by : Crypto → ℕ → Bytes → List ValidatorSig → Bytes → Bool
signed_by c height block_hash [] v = false
signed_by c height block_hash (cs ∷ rest) v =
    let later = signed_by c height block_hash rest v in
    if eq_bytes cs.validator v && sig_verifies c height block_hash cs then true else later

abbrev pub signers : Crypto → Block → List Bytes → ℕ
signers c b = count_if (signed_by c b.height (hash c b) b.commit_sigs)

module _ (c : Crypto) (height : ℕ) (block_hash : Bytes) (vs : List Bytes) (d : IsDistinct vs) where
  abbrev unseen : List Bytes → List ValidatorSig → Bytes → Bool
  unseen seen sigs v = if contains seen v then false else signed_by c height block_hash sigs v

  count_if-unseen_nil : (seen ws : List Bytes) → count_if (unseen seen []) ws ≡ 0
  count_if-unseen_nil seen [] = refl
  count_if-unseen_nil seen (w ∷ ws) = ground (arith, count_if-unseen_nil seen ws)

  skip-unseen :
      (seen : List Bytes) (cs : ValidatorSig) (rest : List ValidatorSig)
      → counts c height block_hash vs seen cs ≡ false
      → count_if (unseen seen (cs ∷ rest)) vs ≡ count_if (unseen seen rest) vs
  unfolding counts
  skip-unseen seen cs rest skipped =
      count_if-cong (unseen seen (cs ∷ rest)) (unseen seen rest) vs
        (λ v member. ground (arith, eq_bytes_iff cs.validator v))

  take-unseen :
      (seen : List Bytes) (cs : ValidatorSig) (rest : List ValidatorSig)
      → counts c height block_hash vs seen cs ≡ true
      → count_if (unseen seen (cs ∷ rest)) vs ≡ 1 + count_if (unseen (cs.validator ∷ seen) rest) vs
  unfolding counts contains
  take-unseen seen cs rest counted =
      let once =
        count_if-suc (unseen seen (cs ∷ rest)) (unseen (cs.validator ∷ seen) rest) cs.validator vs d
          (ground (arith, eq_bytes_refl cs.validator)) (ground (arith, eq_bytes_refl cs.validator))
          (λ v other. ground (arith, eq_bytes_iff cs.validator v)) in
      ground (arith, once)

  count_valid-eq :
      (seen : List Bytes) (valid : ℕ) (sigs : List ValidatorSig)
      → count_valid c height block_hash vs seen valid sigs ≡ valid + count_if (unseen seen sigs) vs
  unfolding count_valid
  count_valid-eq seen valid [] = omega (arith, count_if-unseen_nil seen vs)
  count_valid-eq seen valid (cs ∷ rest) =
      elim (Bool-cases (counts c height block_hash vs seen cs)) [
        | inl counted ↦ rw counted (
            omega (
              arith,
              count_valid-eq (cs.validator ∷ seen) (valid + 1) rest,
              take-unseen seen cs rest counted,
            ))
        | inr skipped ↦
            rw skipped
              (omega (arith, count_valid-eq seen valid rest, skip-unseen seen cs rest skipped))
      ]

  count_valid-le-length :
      (seen : List Bytes) (valid : ℕ) (sigs : List ValidatorSig)
      → count_valid c height block_hash vs seen valid sigs ≤ valid + length sigs
  unfolding count_valid
  count_valid-le-length seen valid [] = omega arith
  count_valid-le-length seen valid (cs ∷ rest) =
      let counted = counts c height block_hash vs seen cs in
      let more =
        count_valid-le-length (if counted then cs.validator ∷ seen else seen)
          (if counted then valid + 1 else valid) rest in
      ground (arith, more)

-- For a validator list without repetition the check passes exactly when at least `quorum` of the
-- validators have a signature that verifies among the block's commit signatures.
pub verify_commit_quorum-eq-signers :
    (c : Crypto) (b : Block) (quorum : ℕ) (vs : List Bytes)
    → IsDistinct vs
    → verify_commit_quorum c b quorum vs ≡ leb quorum (signers c b vs)
unfolding verify_commit_quorum contains
verify_commit_quorum-eq-signers c b quorum vs d =
    let exact = count_valid-eq c b.height (hash c b) vs d [] 0 b.commit_sigs in
    let bound = count_valid-le-length c b.height (hash c b) vs d [] 0 b.commit_sigs in
    ground (arith, exact, bound)
