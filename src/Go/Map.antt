-- ===== src/Go/Map.antt =====
-- Go maps with string keys: the entries in the order of their first insertion. The order in which
-- Go walks a map is not fixed; what depends on it is proved for every order where it matters.
use open_chat.Prelude.{
  ◌+◌, ◌≤◌, ◌≡◌, refl, Bool, true, false, Option, none, some, List, [], ◌∷◌, ◌++◌, All, arith,
  if◌then◌else◌, length,
}
use open_chat.Go.Bytes.{Bytes, eq_bytes, eq_bytes_iff}

abbrev pub Map {ℓ} : Type ℓ → Type ℓ
Map V = List (Bytes × V)

-- A set of strings, `map[string]bool`.
unfoldable pub contains : List Bytes → Bytes → Bool
contains [] k = false
contains (x ∷ xs) k = let rest = contains xs k in if eq_bytes x k then true else rest

-- No key stands twice.
abbrev pub IsDistinct : List Bytes → Type 0
IsDistinct [] = Unit {0}
IsDistinct (x ∷ xs) = (contains xs x ≡ false) × IsDistinct xs

module _ {ℓ} {V : Type ℓ} where
  unfoldable pub lookup : Map V → Bytes → Option V
  lookup [] k = none
  lookup ((j, v) ∷ m) k = let rest = lookup m k in if eq_bytes j k then some v else rest

  unfoldable pub insert : Map V → Bytes → V → Map V
  insert [] k v = (k, v) ∷ []
  insert ((j, w) ∷ m) k v =
      let rest = insert m k v in if eq_bytes j k then (j, v) ∷ m else (j, w) ∷ rest

  unfoldable pub delete : Map V → Bytes → Map V
  delete [] k = []
  delete ((j, w) ∷ m) k = let rest = delete m k in if eq_bytes j k then rest else (j, w) ∷ rest

  abbrev pub keys : Map V → List Bytes
  keys [] = []
  keys ((j, w) ∷ m) = j ∷ keys m

  abbrev pub values : Map V → List V
  values [] = []
  values ((j, w) ∷ m) = w ∷ values m

  pub lookup-insert :
      (m : Map V) (k j : Bytes) (v : V)
      → lookup (insert m k v) j ≡ (if eq_bytes k j then some v else lookup m j)
  unfolding lookup insert
  lookup-insert [] k j v = refl
  lookup-insert ((i, w) ∷ m) k j v =
      ground (arith, eq_bytes_iff k j, eq_bytes_iff i k, eq_bytes_iff i j, lookup-insert m k j v)

  pub lookup-delete :
      (m : Map V) (k j : Bytes)
      → lookup (delete m k) j ≡ (if eq_bytes k j then none else lookup m j)
  unfolding lookup delete
  lookup-delete [] k j = ground arith
  lookup-delete ((i, w) ∷ m) k j =
      ground (arith, eq_bytes_iff k j, eq_bytes_iff i k, eq_bytes_iff i j, lookup-delete m k j)

  pub contains-keys-insert :
      (m : Map V) (k j : Bytes) (v : V)
      → contains (keys (insert m k v)) j ≡ (if eq_bytes k j then true else contains (keys m) j)
  unfolding contains insert
  contains-keys-insert [] k j v = refl
  contains-keys-insert ((i, w) ∷ m) k j v =
      ground
        (arith, eq_bytes_iff k j, eq_bytes_iff i k, eq_bytes_iff i j, contains-keys-insert m k j v)

  pub insert-IsDistinct :
      (m : Map V) (k : Bytes) (v : V) → IsDistinct (keys m) → IsDistinct (keys (insert m k v))
  unfolding contains insert
  insert-IsDistinct [] k v d = ground arith
  insert-IsDistinct ((i, w) ∷ m) k v d = ground (
    arith,
    eq_bytes_iff i k,
    eq_bytes_iff k i,
    insert-IsDistinct m k v d.1,
    contains-keys-insert m k i v,
  )

  pub contains-keys-delete :
      (m : Map V) (k j : Bytes)
      → contains (keys (delete m k)) j ≡ (if eq_bytes k j then false else contains (keys m) j)
  unfolding contains delete
  contains-keys-delete [] k j = ground arith
  contains-keys-delete ((i, w) ∷ m) k j =
      ground
        (arith, eq_bytes_iff k j, eq_bytes_iff i k, eq_bytes_iff i j, contains-keys-delete m k j)

  pub delete-IsDistinct :
      (m : Map V) (k : Bytes) → IsDistinct (keys m) → IsDistinct (keys (delete m k))
  unfolding contains delete
  delete-IsDistinct [] k d = tt
  delete-IsDistinct ((i, w) ∷ m) k d = ground (
    arith,
    eq_bytes_iff k i,
    eq_bytes_iff i k,
    delete-IsDistinct m k d.1,
    contains-keys-delete m k i,
  )

  -- The size after a write: one more for a new key.
  pub length-insert :
      (m : Map V) (k : Bytes) (v : V)
      → length (insert m k v) ≡ (if contains (keys m) k then length m else length m + 1)
  unfolding contains insert
  length-insert [] k v = refl
  length-insert ((i, w) ∷ m) k v = ground (arith, length-insert m k v)

  pub length-delete-le : (m : Map V) (k : Bytes) → length (delete m k) ≤ length m
  unfolding delete
  length-delete-le [] k = omega arith
  length-delete-le ((i, w) ∷ m) k = ground (arith, length-delete-le m k)

  pub values-insert_new :
      (m : Map V) (k : Bytes) (v : V)
      → lookup m k ≡ none
      → values (insert m k v) ≡ values m ++ v ∷ []
  unfolding lookup insert
  values-insert_new [] k v h = refl
  values-insert_new ((j, w) ∷ m) k v h = ground (arith, values-insert_new m k v)

  pub contains-keys-lookup :
      (m : Map V) (k : Bytes) → lookup m k ≡ none → contains (keys m) k ≡ false
  unfolding lookup contains
  contains-keys-lookup [] k h = refl
  contains-keys-lookup ((j, w) ∷ m) k h = ground (arith, contains-keys-lookup m k)

  pub insert_new :
      (m : Map V) (k : Bytes) (v : V) → lookup m k ≡ none → insert m k v ≡ m ++ (k, v) ∷ []
  unfolding lookup insert
  insert_new [] k v h = refl
  insert_new ((j, w) ∷ m) k v h = ground (arith, insert_new m k v)

module _ {ℓ κ} {V : Type ℓ} where
  pub All-values-delete :
      (P : V → Type κ) (m : Map V) (k : Bytes) → All P (values m) → All P (values (delete m k))
  unfolding delete
  All-values-delete P [] k h = tt
  All-values-delete P ((j, w) ∷ m) k h = ground (arith, All-values-delete P m k h.1)

  pub All-delete : (P : Bytes × V → Type κ) (m : Map V) (k : Bytes) → All P m → All P (delete m k)
  unfolding delete
  All-delete P [] k h = tt
  All-delete P ((j, w) ∷ m) k h = ground (arith, All-delete P m k h.1)
