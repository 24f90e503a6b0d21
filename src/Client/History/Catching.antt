-- ===== src/Client/History/Catching.antt =====
-- A scan over gateways that serve one chain catches up with it.
use mathlib.Core.List.{append_assoc}
use open_chat.Prelude.{
  ℕ, zero, suc, ◌+◌, ◌≤◌, ◌<◌, ◌≡◌, refl, sym, ap, ◌∙◌, subst, false, some, List, [], ◌∷◌, ◌++◌,
  length, take, drop, drop_front, length-append, arith, Result, ok,
}
use open_chat.Go.Int64.{word}
use open_chat.Crypto.{Crypto}
use open_chat.Gateway.Wire.{BlockPb}
use open_chat.Client.Primitives.{Primitives}
use open_chat.Client.Wallet.{Wallet}
use open_chat.Client.History.{
  Known, Scan, RpcError, Gateways, Fetched, caught_up, after, is_transport_error, call_get_blocks,
  scan_blocks, fetch_history,
}
use open_chat.Client.History.Scanning.{IsNumbered, joined, scan_blocks-append, scan_blocks-height}

-- Every turn, the gateway at hand serves the blocks of the chain from the height asked for on, at
-- most 500 of them. A height is a uint64.
abbrev pub IsServing : Gateways → List BlockPb → Type 0
IsServing g chain =
    ((turn height : ℕ) → height < word → g.answer turn height ≡ ok (take 500 (drop height chain)))
    × ((turn : ℕ) → g.is_over turn ≡ false)

take-drop : (n : ℕ) (xs : List BlockPb) → take n xs ++ drop n xs ≡ xs
take-drop zero xs = refl
take-drop (suc n) [] = refl
take-drop (suc n) (x ∷ xs) = ap (λ (r : List BlockPb). x ∷ r) (take-drop n xs)

length-drop_le : (n : ℕ) (xs : List BlockPb) → length (drop n xs) ≤ length xs
length-drop_le zero xs = omega arith
length-drop_le (suc n) [] = omega arith
length-drop_le (suc n) (x ∷ xs) = omega (arith, length-drop_le n xs)

IsNumbered-append :
    (xs ys : List BlockPb) (h : ℕ)
    → IsNumbered h (xs ++ ys)
    → IsNumbered h xs × IsNumbered (h + length xs) ys
IsNumbered-append [] ys h n = (tt, subst (λ (k : ℕ). IsNumbered k ys) (omega arith) n)
IsNumbered-append (x ∷ xs) ys h n =
    let (front, back) = IsNumbered-append xs ys (h + 1) n.1 in
    ((n.0, front), subst (λ (k : ℕ). IsNumbered k ys) (omega arith) back)

abbrev pub caught : ℕ × Scan → Fetched
caught (next, scan) = record { stop = caught_up; height = next; scan = scan }

abbrev answer : List BlockPb → Result RpcError (List BlockPb)
answer bs = ok bs

module _ (c : Crypto) (P : Primitives) (w : Wallet) (g : Gateways) (chain : List BlockPb) where
  served :
      (turn : ℕ) (front rest : List BlockPb)
      → IsServing g chain
      → front ++ rest ≡ chain
      → length front < word
      → call_get_blocks g turn (length front) ≡ some (ok (take 500 rest))
  unfolding call_get_blocks is_transport_error
  served turn front rest s e small =
      let answered : g.answer turn (length front) ≡ ok (take 500 rest) =
        s.0 turn (length front) small
        ∙ ap (λ (l : List BlockPb). answer (take 500 (drop (length front) l))) (sym e)
        ∙ ap (λ (l : List BlockPb). answer (take 500 l)) (drop_front front rest) in
      rw (call_get_blocks, answered) refl

  one_turn :
      (fuel turn : ℕ) (front rest : List BlockPb) (b : BlockPb) (known : Known)
      → IsServing g chain
      → front ++ b ∷ rest ≡ chain
      → length front < word
      → fetch_history c P w g (suc fuel) turn (length front) known ≡ (
          let (next, scan) = scan_blocks c P w (b ∷ take 499 rest) (length front) known in
          after scan.events (fetch_history c P w g fuel (suc turn) next scan.known))
  unfolding fetch_history
  one_turn fuel turn front rest b known s e small =
      rw (fetch_history, s.1 turn, served turn front (b ∷ rest) s e small) refl

  -- What is left after a batch, at the height behind it.
  batch_then_rest :
      (front rest : List BlockPb) (b : BlockPb) (known : Known)
      → let batch = b ∷ take 499 rest in
        let (next, first) = scan_blocks c P w batch (length front) known in
        scan_blocks c P w (b ∷ rest) (length front) known
        ≡ joined (scan_blocks c P w (drop 499 rest) next first.known) first.events
  batch_then_rest front rest b known =
      ap (λ (l : List BlockPb). scan_blocks c P w l (length front) known)
        (sym (take-drop 500 (b ∷ rest)))
      ∙ scan_blocks-append c P w (b ∷ take 499 rest) (drop 499 rest) (length front) known

  catch_up :
      (fuel turn : ℕ) (front rest : List BlockPb) (known : Known)
      → IsServing g chain
      → front ++ rest ≡ chain
      → IsNumbered (length front) rest
      → length front + length rest < word
      → length rest < fuel
      → fetch_history c P w g fuel turn (length front) known
        ≡ caught (scan_blocks c P w rest (length front) known)
  unfolding fetch_history scan_blocks
  catch_up zero turn front rest known s e n small lt = absurd (omega arith)
  catch_up (suc fuel) turn front [] known s e n small lt =
      rw (fetch_history, s.1 turn, served turn front [] s e (omega arith)) refl
  catch_up (suc fuel) turn front (b ∷ rest) known s e n small lt =
      let batch = b ∷ take 499 rest in
      let left = drop 499 rest in
      let (front_numbered, left_numbered) =
        IsNumbered-append batch left (length front)
          (subst (IsNumbered (length front)) (sym (take-drop 500 (b ∷ rest))) n) in
      let total = ap length (take-drop 500 (b ∷ rest)) in
      let both = length-append batch left in
      let first = (scan_blocks c P w batch (length front) known).1 in
      let behind = length-append front batch in
      let next : (scan_blocks c P w batch (length front) known).0 ≡ length (front ++ batch) =
        scan_blocks-height c P w batch (length front) known front_numbered (omega arith)
        ∙ sym behind in
      let later =
        catch_up fuel (suc turn) (front ++ batch) left first.known s
          (append_assoc front batch left
            ∙ ap (λ (l : List BlockPb). front ++ l) (take-drop 500 (b ∷ rest))
            ∙ e)
          (subst (λ (k : ℕ). IsNumbered k left) (sym behind) left_numbered) (omega arith)
          (omega (arith, length-drop_le 499 rest)) in
      one_turn fuel turn front rest b known s e (omega arith)
      ∙ ap (λ (k : ℕ). after first.events (fetch_history c P w g fuel (suc turn) k first.known))
          next
      ∙ ap (after first.events) later
      ∙ ap (λ (k : ℕ). caught (joined (scan_blocks c P w left k first.known) first.events))
          (sym next)
      ∙ sym (ap caught (batch_then_rest front rest b known))

  -- A scan that starts at the length of some front of the chain catches up within a turn for each
  -- block and one more: it ends at the height behind the chain with what one pass over the rest of
  -- the chain finds. Every gateway serves the chain, whose blocks have their places for heights.
  pub fetch_history-catches_up :
      (turn : ℕ) (front rest : List BlockPb) (known : Known)
      → IsServing g chain
      → front ++ rest ≡ chain
      → IsNumbered 0 chain
      → length chain < word
      → (fetch_history c P w g (suc (length rest)) turn (length front) known
          ≡ caught (scan_blocks c P w rest (length front) known))
        × ((scan_blocks c P w rest (length front) known).0 ≡ length chain)
  fetch_history-catches_up turn front rest known s e n small =
      let size = ap length (sym e) ∙ length-append front rest in
      let (_, numbered) = IsNumbered-append front rest 0 (subst (IsNumbered 0) (sym e) n) in
      let here : IsNumbered (length front) rest =
        subst (λ (k : ℕ). IsNumbered k rest) (omega arith) numbered in
      (
        catch_up (suc (length rest)) turn front rest known s e here (omega arith) (omega arith),
        scan_blocks-height c P w rest (length front) known here (omega arith) ∙ sym size,
      )
