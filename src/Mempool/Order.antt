-- ===== src/Mempool/Order.antt =====
-- The order of `Propose`: by sender and then by nonce, whatever the order of the map.
use mathlib.Core.Logic.{∥∥₁_elim}
use mathlib.Core.Path.{subst₂}
use mathlib.Core.List.{Perm, Permᴰ}
use mathlib.Core.List.Permᴰ
use open_chat.Prelude.{
  ◌≡◌, refl, ap₂, subst, ◌∙◌, Bool, true, false, inl, inr, List, [], ◌∷◌, arith, ◌==◌,
  if◌then◌else◌, All, All-mono, Bool-cases,
}
use open_chat.Go.Bytes.{eq_bytes, eq_bytes_iff, less_irrefl, less_trans, less_total}
use open_chat.Blockchain.Transaction.{Transaction}
use open_chat.Mempool.{before, insert_sorted, sort}

-- One sender and one nonce.
abbrev pub same_slot : Transaction → Transaction → Bool
same_slot t u = if eq_bytes t.from u.from then t.nonce == u.nonce else false

abbrev pub HasDistinctSlots : List Transaction → Type 0
HasDistinctSlots [] = Unit {0}
HasDistinctSlots (t ∷ ts) =
    All (λ (u : Transaction). same_slot t u ≡ false) ts × HasDistinctSlots ts

before_asym : (t u : Transaction) → before t u ≡ true → before u t ≡ false
unfolding before
before_asym t u h = ground (
  arith,
  eq_bytes_iff t.from u.from,
  eq_bytes_iff u.from t.from,
  less_trans t.from u.from t.from,
  less_irrefl t.from,
)

before_total : (t u : Transaction) → same_slot t u ≡ false → before t u ≡ false → before u t ≡ true
unfolding before
before_total t u d h =
    ground (arith, eq_bytes_iff t.from u.from, eq_bytes_iff u.from t.from, less_total t.from u.from)

-- What is not after `w` stands in front of what is.
before_between : (w t u : Transaction) → before w u ≡ true → before w t ≡ false → before t u ≡ true
unfolding before
before_between w t u h k = ground (
  arith,
  eq_bytes_iff w.from t.from,
  eq_bytes_iff w.from u.from,
  eq_bytes_iff t.from u.from,
  less_total w.from t.from,
  less_trans t.from w.from u.from,
)

insert_sorted_comm :
    (t u : Transaction) (l : List Transaction)
    → same_slot t u ≡ false
    → insert_sorted t (insert_sorted u l) ≡ insert_sorted u (insert_sorted t l)
unfolding insert_sorted
insert_sorted_comm t u [] d = ground (arith, before_asym t u, before_total t u d)
insert_sorted_comm t u (w ∷ l) d = ground (
  arith,
  before_asym t u,
  before_asym u t,
  before_total t u d,
  before_between w t u,
  before_between w u t,
  insert_sorted_comm t u l d,
)

same_slot_sym : (t u : Transaction) → same_slot t u ≡ false → same_slot u t ≡ false
same_slot_sym t u h = ground (arith, eq_bytes_iff t.from u.from, eq_bytes_iff u.from t.from)

All-permᴰ :
    (P : Transaction → Type 0) {xs ys : List Transaction} → Permᴰ xs ys → All P xs → All P ys
All-permᴰ P Permᴰ.nil h = h
All-permᴰ P (Permᴰ.cons e p) h = (subst P e h.0, All-permᴰ P p h.1)
All-permᴰ P (Permᴰ.swap e f) h = (subst P f h.1.0, (subst P e h.0, h.1.1))
All-permᴰ P (Permᴰ.trans p q) h = All-permᴰ P q (All-permᴰ P p h)

HasDistinctSlots-permᴰ :
    {xs ys : List Transaction} → Permᴰ xs ys → HasDistinctSlots xs → HasDistinctSlots ys
HasDistinctSlots-permᴰ Permᴰ.nil h = h
HasDistinctSlots-permᴰ (Permᴰ.cons {l₂ = ys} e p) h = (
  subst (λ (t : Transaction). All (λ (u : Transaction). same_slot t u ≡ false) ys) e
      (All-permᴰ _ p h.0),
  HasDistinctSlots-permᴰ p h.1,
)
HasDistinctSlots-permᴰ (Permᴰ.swap {a = a} {b = b} {l = l} e f) h =
    subst₂ (λ (x y : Transaction). HasDistinctSlots (x ∷ y ∷ l)) f e
      ((same_slot_sym a b h.0.0, h.1.0), (h.0.1, h.1.1))
HasDistinctSlots-permᴰ (Permᴰ.trans p q) h = HasDistinctSlots-permᴰ q (HasDistinctSlots-permᴰ p h)

sort-permᴰ : {xs ys : List Transaction} → Permᴰ xs ys → HasDistinctSlots xs → sort xs ≡ sort ys
unfolding sort
sort-permᴰ Permᴰ.nil h = refl
sort-permᴰ (Permᴰ.cons e p) h = ap₂ insert_sorted e (sort-permᴰ p h.1)
sort-permᴰ (Permᴰ.swap {a = a} {b = b} {l = l} e f) h =
    insert_sorted_comm a b (sort l) h.0.0
    ∙ ap₂ (λ (x y : Transaction). insert_sorted x (insert_sorted y (sort l))) f e
sort-permᴰ (Permᴰ.trans p q) h = sort-permᴰ p h ∙ sort-permᴰ q (HasDistinctSlots-permᴰ p h)

Transactions-set : IsSet (List Transaction)
Transactions-set = hlevel

-- Transactions of which no two have both sender and nonce in common are sorted to one list from
-- every order in which Go may walk the map.
pub sort-perm : {xs ys : List Transaction} → Perm xs ys → HasDistinctSlots xs → sort xs ≡ sort ys
sort-perm p h = ∥∥₁_elim p (Transactions-set _ _) (λ q. sort-permᴰ q h)

-- The order that `less` of `sort.Slice` asks for: nothing stands in front of what goes before it.
abbrev pub IsSorted : List Transaction → Type 0
IsSorted [] = Unit {0}
IsSorted (t ∷ ts) = All (λ (u : Transaction). before u t ≡ false) ts × IsSorted ts

insert_sorted-permᴰ : (t : Transaction) (l : List Transaction) → Permᴰ (insert_sorted t l) (t ∷ l)
unfolding insert_sorted
insert_sorted-permᴰ t [] = Permᴰ.cons refl Permᴰ.nil
insert_sorted-permᴰ t (u ∷ us) = elim (Bool-cases (before u t)) [
  | inl later ↦
      rw later (Permᴰ.trans (Permᴰ.cons refl (insert_sorted-permᴰ t us)) (Permᴰ.swap refl refl))
  | inr here ↦ rw here (Permᴰ.refl (t ∷ u ∷ us))
]

pub sort-permᴰ_self : (l : List Transaction) → Permᴰ (sort l) l
unfolding sort
sort-permᴰ_self [] = Permᴰ.nil
sort-permᴰ_self (t ∷ ts) =
    Permᴰ.trans (insert_sorted-permᴰ t (sort ts)) (Permᴰ.cons refl (sort-permᴰ_self ts))

before_trans_ne :
    (t u w : Transaction) → before u t ≡ false → before w u ≡ false → before w t ≡ false
before_trans_ne t u w h k = ground (arith, before_between w u t)

insert_sorted-IsSorted :
    (t : Transaction) (l : List Transaction) → IsSorted l → IsSorted (insert_sorted t l)
unfolding insert_sorted
insert_sorted-IsSorted t [] h = (tt, tt)
insert_sorted-IsSorted t (u ∷ us) h = elim (Bool-cases (before u t)) [
  | inl later ↦ rw later (
    All-permᴰ _ (Permᴰ.symm (insert_sorted-permᴰ t us)) (before_asym u t later, h.0),
    insert_sorted-IsSorted t us h.1,
  )
  | inr here ↦ rw here ((here, All-mono us (λ w k. before_trans_ne t u w here k) h.0), h)
]

-- The proposed list is in order: no transaction stands behind one that it goes before.
pub sort-IsSorted : (l : List Transaction) → IsSorted (sort l)
unfolding sort
sort-IsSorted [] = tt
sort-IsSorted (t ∷ ts) = insert_sorted-IsSorted t (sort ts) (sort-IsSorted ts)
