-- ===== src/Client/Discovery/Candidates.antt =====
-- The gateways that a round of `Connect` or `Failover` dials.
use open_chat.Prelude.{◌≡◌, refl, ◌&&◌, ◌||◌, not, List, [], ◌∷◌, ◌++◌, arith}
use open_chat.Go.Bytes.{Bytes, eq_bytes, eq_bytes_iff}
use open_chat.Go.Map.{contains, IsDistinct}
use open_chat.Client.Discovery.{Discovery, fresh, candidates}

contains-append :
    (xs ys : List Bytes) (a : Bytes) → contains (xs ++ ys) a ≡ contains xs a || contains ys a
unfolding contains
contains-append [] ys a = refl
contains-append (x ∷ xs) ys a = ground (arith, contains-append xs ys a)

-- Kept: what is listed, is no empty address and was not seen.
contains-fresh :
    (seen xs : List Bytes) (a : Bytes)
    → contains (fresh seen xs) a ≡ contains xs a && not (eq_bytes a []) && not (contains seen a)
unfolding fresh contains
contains-fresh seen [] a = refl
contains-fresh seen (x ∷ xs) a =
    ground (arith, eq_bytes_iff x a, contains-fresh seen xs a, contains-fresh (x ∷ seen) xs a)

fresh-IsDistinct : (seen xs : List Bytes) → IsDistinct (fresh seen xs)
unfolding fresh contains
fresh-IsDistinct seen [] = tt
fresh-IsDistinct seen (x ∷ xs) = ground (
  arith,
  eq_bytes_iff x x,
  contains-fresh (x ∷ seen) xs x,
  fresh-IsDistinct seen xs,
  fresh-IsDistinct (x ∷ seen) xs,
)

-- However the cache is shuffled: no address stands twice, and the candidates are the addresses of the
-- cache and of the bootstrap list, less the empty one and the excluded one.
pub contains-candidates :
    (shuffle : List Bytes → List Bytes) (d : Discovery) (exclude : Bytes)
    → ((a : Bytes) → contains (shuffle d.cache) a ≡ contains d.cache a)
    → IsDistinct (candidates shuffle d exclude)
      × ((a : Bytes)
          → contains (candidates shuffle d exclude) a
            ≡ (contains d.cache a || contains d.bootstrap a)
              && not (eq_bytes a [])
              && not (eq_bytes a exclude))
unfolding candidates contains
contains-candidates shuffle d exclude same = (
  fresh-IsDistinct (exclude ∷ []) (shuffle d.cache ++ d.bootstrap),
  λ (a : Bytes). ground (
    arith,
    same a,
    eq_bytes_iff a exclude,
    eq_bytes_iff exclude a,
    contains-append (shuffle d.cache) d.bootstrap a,
    contains-fresh (exclude ∷ []) (shuffle d.cache ++ d.bootstrap) a,
  ),
)
