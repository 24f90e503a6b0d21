-- ===== src/Consensus/Engine/Rounds.antt =====
-- The keys of the engine's maps: `roundKey` tells heights and rounds apart, and `gc` clears one
-- height.
use mathlib.Core.List.{append_assoc}
use open_chat.Prelude.{
  ℕ, ◌≤◌, ◌≡◌, refl, ap, sym, ◌∙◌, Bool, true, ◌↔◌, [], ◌∷◌, ◌++◌, arith, length, take,
  length-append, none, if◌then◌else◌, ◌==◌,
}
use open_chat.Go.Bytes.{Bytes, eq_bytes_iff}
use open_chat.Go.Decimal.{decimal, decimal_inj, decimal-IsDigit, before_slash}
use open_chat.Go.Map.{Map, lookup}
use open_chat.Consensus.Engine.{Engine, round_key, has_prefix, without_prefix, gc}

-- Keys are equal only for one height and one round.
pub round_key_inj : (h r h' r' : ℕ) → round_key h r ≡ round_key h' r' → (h ≡ h') × (r ≡ r')
unfolding round_key
round_key_inj h r h' r' e =
    let (eh, er) =
      before_slash (decimal h) (decimal r) (decimal h') (decimal r') (decimal-IsDigit h)
        (decimal-IsDigit h') e in
    (decimal_inj h h' eh, decimal_inj r r' er)

take-append-drop_prefix :
    (s p : Bytes) → take (length p) s ≡ p → length p ≤ length s → (rest : Bytes) × (s ≡ p ++ rest)
take-append-drop_prefix s [] e h = (s, refl)
take-append-drop_prefix [] (x ∷ p) e h = absurd (omega arith)
take-append-drop_prefix (y ∷ s) (x ∷ p) e h =
    let (rest, q) = take-append-drop_prefix s p (cc) (omega arith) in (rest, cc)

take-append : (p rest : Bytes) → take (length p) (p ++ rest) ≡ p
take-append [] rest = refl
take-append (x ∷ p) rest = ap (λ (q : Bytes). x ∷ q) (take-append p rest)

has_prefix_iff :
    (s p : Bytes)
    → ((has_prefix s p ≡ true) → (rest : Bytes) × (s ≡ p ++ rest))
      × ((rest : Bytes) → s ≡ p ++ rest → has_prefix s p ≡ true)
unfolding has_prefix
has_prefix_iff s p = (
  λ h.
      take-append-drop_prefix s p (ground (arith, eq_bytes_iff (take (length p) s) p))
        (ground arith),
  λ rest e. ground (
    arith,
    eq_bytes_iff (take (length p) s) p,
    ap (take (length p)) e,
    take-append p rest,
    ap length e,
    length-append p rest,
  ),
)

abbrev pub height_prefix : ℕ → Bytes
height_prefix h = decimal h ++ 47 ∷ []

-- A key has the prefix that `gc` looks for exactly if it is a key of that height.
pub has_prefix-round_key :
    (h h' r : ℕ) → (has_prefix (round_key h' r) (height_prefix h) ≡ true) ↔ (h' ≡ h)
unfolding round_key
has_prefix-round_key h h' r = (
  λ pre.
      let (rest, e) = (has_prefix_iff (round_key h' r) (height_prefix h)).0 pre in
      decimal_inj h' h
        (before_slash (decimal h') (decimal r) (decimal h) rest (decimal-IsDigit h')
          (decimal-IsDigit h) (e ∙ append_assoc (decimal h) (47 ∷ []) rest)).0,
  λ same. (has_prefix_iff (round_key h' r) (height_prefix h)).1 (decimal r) (
      ap (λ (k : ℕ). decimal k ++ 47 ∷ decimal r) same
      ∙ sym (append_assoc (decimal h) (47 ∷ []) (decimal r))),
)

pub lookup-without_prefix {ℓ} :
    {V : Type ℓ} (m : Map V) (p k : Bytes)
    → lookup (without_prefix m p) k ≡ (if has_prefix k p then none else lookup m k)
unfolding lookup without_prefix
lookup-without_prefix [] p k = ground arith
lookup-without_prefix ((j, v) ∷ m) p k =
    ground (arith, eq_bytes_iff j k, lookup-without_prefix m p k)

lookup-cleared {ℓ} :
    {V : Type ℓ} (m : Map V) (h h' r : ℕ)
    → lookup (without_prefix m (height_prefix h)) (round_key h' r)
      ≡ (if h' == h then none else lookup m (round_key h' r))
lookup-cleared m h h' r =
    lookup-without_prefix m (height_prefix h) (round_key h' r)
    ∙ ap (λ (b : Bool). if b then none else lookup m (round_key h' r))
        (ground (arith, has_prefix-round_key h h' r))

-- `gc` forgets the proposals and votes of its height, of every round, and of no other height.
pub gc_lem :
    (e : Engine) (h h' r : ℕ)
    → let key = round_key h' r in
      (lookup (gc e h).proposals key ≡ (if h' == h then none else lookup e.proposals key))
      × (lookup (gc e h).prevotes key ≡ (if h' == h then none else lookup e.prevotes key))
      × (lookup (gc e h).precommits key ≡ (if h' == h then none else lookup e.precommits key))
unfolding gc
gc_lem e h h' r = (
  lookup-cleared e.proposals h h' r,
  lookup-cleared e.prevotes h h' r,
  lookup-cleared e.precommits h h' r,
)
