-- ===== src/Consensus/Quorum.antt =====
-- `quorum` of internal/consensus/util.go, and why two quorums share an honest validator.
use open_chat.Prelude.{
  ℕ, ◌+◌, ◌-◌, ◌*◌, ◌/◌, ◌≤◌, ◌<◌, ◌≡◌, true, ◌&&◌, List, arith, length, count_if,
}
use open_chat.Go.Bytes.{Bytes}
use open_chat.Go.Map.{IsDistinct}
use open_chat.Crypto.{Crypto}
use open_chat.Blockchain.Block.{Block, hash, verify_commit_quorum}
use open_chat.Blockchain.Block.Quorum.{
  signed_by, signers, count_if-both, verify_commit_quorum-eq-signers,
}

-- Go's `(n - 1) / 3` is 0 at `n = 0` too, as `-1 / 3` is cut towards 0.
abbrev pub max_faulty : ℕ → ℕ
max_faulty n = (n - 1) / 3

unfoldable pub quorum : ℕ → ℕ
quorum n = n - max_faulty n

-- `n = 3f + 1` validators need `2f + 1` votes.
pub quorum_3f1 : (f : ℕ) → quorum (3 * f + 1) ≡ 2 * f + 1
unfolding quorum
quorum_3f1 f = omega arith

-- Two quorums of `n` validators overlap in more than the tolerated number of faulty ones, and the
-- validators that are not faulty make a quorum.
pub quorum_overlap :
    (n : ℕ) → 0 < n → (n + max_faulty n < 2 * quorum n) × (quorum n + max_faulty n ≡ n)
unfolding quorum
quorum_overlap n h = omega arith

-- The validators that have a signature in both blocks.
abbrev pub double_signers : Crypto → Block → Block → List Bytes → ℕ
double_signers c a b = count_if (λ v.
    signed_by c a.height (hash c a) a.commit_sigs v
    && signed_by c b.height (hash c b) b.commit_sigs v)

-- If two blocks, equal or not, both pass the quorum check of the same validators, some and all
-- distinct, then more than `max_faulty` of these validators have signed both.
pub commits_overlap :
    (c : Crypto) (a b : Block) (vs : List Bytes)
    → IsDistinct vs
    → 0 < length vs
    → verify_commit_quorum c a (quorum (length vs)) vs ≡ true
    → verify_commit_quorum c b (quorum (length vs)) vs ≡ true
    → max_faulty (length vs) < double_signers c a b vs
commits_overlap c a b vs d h pa pb =
    let ea = verify_commit_quorum-eq-signers c a (quorum (length vs)) vs d in
    let eb = verify_commit_quorum-eq-signers c b (quorum (length vs)) vs d in
    let (wide, _) = quorum_overlap (length vs) h in
    let both =
      count_if-both (signed_by c a.height (hash c a) a.commit_sigs)
        (signed_by c b.height (hash c b) b.commit_sigs) vs in
    let la : quorum (length vs) ≤ signers c a vs = ground arith in
    let lb : quorum (length vs) ≤ signers c b vs = ground arith in omega (arith, both)
