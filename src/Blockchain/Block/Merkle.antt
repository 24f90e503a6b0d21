-- ===== src/Blockchain/Block/Merkle.antt =====
-- The loop of `ComputeMerkleRoot`: it ends with one hash, and a doubled last leaf does not show.
use mathlib.Core.List.{map-append}
use open_chat.Prelude.{
  ℕ, zero, suc, ◌+◌, ◌/◌, ◌%◌, ◌≤◌, ◌<◌, ◌≡◌, refl, sym, ap, ◌∙◌, List, [], ◌∷◌, ◌++◌, map, arith,
  length, length-map, length-append,
}
use open_chat.Go.Bytes.{Bytes}
use open_chat.Go.Hex.{encode}
use open_chat.Crypto.{Crypto}
use open_chat.Blockchain.Transaction.{Transaction}
use open_chat.Blockchain.Block.{
  append_last, pad, pair_up, merkle_loop, merkle_root_of, first_or, leaf,
}

length-append_last : (l : List Bytes) → 0 < length l → length (append_last l) ≡ length l + 1
unfolding append_last
length-append_last [] h = absurd (omega arith)
length-append_last (x ∷ []) h = omega arith
length-append_last (x ∷ y ∷ rest) h = omega (arith, length-append_last (y ∷ rest) (omega arith))

length-pad : (l : List Bytes) → length (pad l) ≡ length l + length l % 2
unfolding pad
length-pad l = ground (arith, length-append_last l)

pad_even : (l : List Bytes) → length l % 2 ≡ 0 → pad l ≡ l
unfolding pad
pad_even l h = ground arith

pad_odd : (l : List Bytes) → length l % 2 ≡ 1 → pad l ≡ append_last l
unfolding pad
pad_odd l h = ground arith

append_last-append : (l : List Bytes) (x : Bytes) → append_last (l ++ x ∷ []) ≡ l ++ x ∷ x ∷ []
unfolding append_last
append_last-append [] x = refl
append_last-append (y ∷ []) x = refl
append_last-append (y ∷ z ∷ l) x = ap (λ (r : List Bytes). y ∷ r) (append_last-append (z ∷ l) x)

module _ (c : Crypto) where
  length-pair_up : (l : List Bytes) → length (pair_up c l) ≡ length l / 2
  unfolding pair_up
  length-pair_up [] = omega arith
  length-pair_up (x ∷ []) = omega arith
  length-pair_up (x ∷ y ∷ rest) = omega (arith, length-pair_up rest)

  length-round : (l : List Bytes) → length (pair_up c (pad l)) ≡ (length l + length l % 2) / 2
  length-round l = length-pair_up (pad l) ∙ ap (λ (n : ℕ). n / 2) (length-pad l)

  -- One round less fuel than hashes is enough.
  length-merkle_loop :
      (fuel : ℕ) (l : List Bytes)
      → 0 < length l
      → length l ≤ suc fuel
      → length (merkle_loop c fuel l) ≡ 1
  unfolding merkle_loop
  length-merkle_loop zero l h k = omega arith
  length-merkle_loop (suc fuel) l h k =
      let shorter = length-round l in ground (arith, length-merkle_loop fuel (pair_up c (pad l)))

  -- More fuel changes nothing.
  merkle_loop_fuel :
      (f g : ℕ) (l : List Bytes)
      → length l ≤ suc f
      → length l ≤ suc g
      → merkle_loop c f l ≡ merkle_loop c g l
  unfolding merkle_loop
  merkle_loop_fuel zero zero l h k = refl
  merkle_loop_fuel zero (suc g) l h k = ground arith
  merkle_loop_fuel (suc f) zero l h k = ground arith
  merkle_loop_fuel (suc f) (suc g) l h k =
      let shorter = length-round l in ground (arith, merkle_loop_fuel f g (pair_up c (pad l)))

  merkle_loop-pad :
      (f g : ℕ) (l : List Bytes)
      → 1 < length l
      → length l ≤ f
      → length (pad l) ≤ g
      → merkle_loop c f l ≡ merkle_loop c g (pad l)
  unfolding merkle_loop
  merkle_loop-pad zero g l h hf hg = absurd (omega arith)
  merkle_loop-pad (suc f) zero l h hf hg = absurd (omega (arith, length-pad l))
  merkle_loop-pad (suc f) (suc g) l h hf hg =
      let even = pad_even (pad l) (omega (arith, length-pad l)) in
      let shorter = length-round l in
      ground (arith, even, length-pad l, merkle_loop_fuel f g (pair_up c (pad l)))

-- The loop of `ComputeMerkleRoot` ends with a single hash, whatever the number of transactions.
pub merkle_loop_ends :
    (c : Crypto) (tx : Transaction) (txs : List Transaction)
    → length (merkle_loop c (length (map (leaf c) (tx ∷ txs))) (map (leaf c) (tx ∷ txs))) ≡ 1
merkle_loop_ends c tx txs =
    length-merkle_loop c (length (map (leaf c) (tx ∷ txs))) (map (leaf c) (tx ∷ txs)) (omega arith)
      (omega arith)

merkle_root_of-layer :
    (c : Crypto) (txs : List Transaction)
    → 0 < length txs
    → merkle_root_of c txs
      ≡ encode (first_or [] (merkle_loop c (length (map (leaf c) txs)) (map (leaf c) txs)))
unfolding merkle_root_of
merkle_root_of-layer c [] h = absurd (omega arith)
merkle_root_of-layer c (tx ∷ txs) h = refl

layer_doubled :
    (c : Crypto) (txs : List Transaction) (tx : Transaction)
    → length txs % 2 ≡ 0
    → map (leaf c) (txs ++ tx ∷ tx ∷ []) ≡ pad (map (leaf c) (txs ++ tx ∷ []))
layer_doubled c txs tx even =
    let split = map-append (leaf c) txs (tx ∷ []) in
    let size : length (map (leaf c) (txs ++ tx ∷ [])) % 2 ≡ 1 =
      omega (arith, length-map (txs ++ tx ∷ []) (leaf c), length-append txs (tx ∷ [])) in
    map-append (leaf c) txs (tx ∷ tx ∷ [])
    ∙ sym (append_last-append (map (leaf c) txs) (leaf c tx))
    ∙ ap append_last (sym split)
    ∙ sym (pad_odd (map (leaf c) (txs ++ tx ∷ [])) size)

-- A list of three or more transactions, odd in number, has the Merkle root of the list in which
-- its last transaction stands twice.
pub merkle_root_doubled :
    (c : Crypto) (txs : List Transaction) (tx : Transaction)
    → 0 < length txs
    → length txs % 2 ≡ 0
    → merkle_root_of c (txs ++ tx ∷ []) ≡ merkle_root_of c (txs ++ tx ∷ tx ∷ [])
merkle_root_doubled c txs tx h even =
    let once = map (leaf c) (txs ++ tx ∷ []) in
    let twice = map (leaf c) (txs ++ tx ∷ tx ∷ []) in
    let size : 1 < length once =
      omega (arith, length-map (txs ++ tx ∷ []) (leaf c), length-append txs (tx ∷ [])) in
    let doubled = layer_doubled c txs tx even in
    merkle_root_of-layer c (txs ++ tx ∷ []) (omega (arith, length-append txs (tx ∷ [])))
    ∙ ap (λ (l : List Bytes). encode (first_or [] l))
        (merkle_loop-pad c (length once) (length twice) once size (omega arith)
            (omega (arith, ap length doubled))
          ∙ ap (merkle_loop c (length twice)) (sym doubled))
    ∙ sym (
        merkle_root_of-layer c (txs ++ tx ∷ tx ∷ [])
          (omega (arith, length-append txs (tx ∷ tx ∷ []))))
