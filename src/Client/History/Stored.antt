-- ===== src/Client/History/Stored.antt =====
-- The history over gateways that answer from the store of a ledger.
use open_chat.Prelude.{
  some, ◌==◌, if◌then◌else◌, ℕ, zero, suc, ◌+◌, ◌%◌, ◌<◌, ◌≡◌, refl, sym, ap, ◌∙◌, true, false,
  List, [], ◌∷◌, ◌++◌, length, take, drop, get_elem?, drop-none, drop-some, length-map, map, arith,
  Result, ok, err, Option-cases, inl, inr,
}
use open_chat.Go.Int64.{word, IsWord}
use open_chat.Crypto.{Crypto}
use open_chat.Blockchain.Block.{Block}
use open_chat.Blockchain.Chain.Store.{BlockStore, StoreError, IsBlockStore}
use open_chat.Gateway.Wire.{BlockPb, block_to_pb}
use open_chat.Gateway.Server.{get_blocks, collect_blocks, batch_limit}
use open_chat.Client.Primitives.{Primitives}
use open_chat.Client.Wallet.{Wallet}
use open_chat.Client.History.{Known, Gateways, RpcError, status, scan_blocks, fetch_history}
use open_chat.Client.History.Scanning.{IsNumbered}
use open_chat.Client.History.Catching.{caught, fetch_history-catches_up}

-- An error of a handler that is no gRPC status travels as Unknown.
abbrev pub over_wire : Result StoreError (List BlockPb) → Result RpcError (List BlockPb)
over_wire (ok bs) = ok bs
over_wire (err why) = err (status 2)

drop-map :
    (chain : List Block) (h : ℕ) → drop h (map block_to_pb chain) ≡ map block_to_pb (drop h chain)
drop-map chain zero = refl
drop-map [] (suc h) = refl
drop-map (b ∷ chain) (suc h) = drop-map chain h

get_elem?-append :
    (chain : List Block) (b : Block) (h : ℕ)
    → get_elem? (chain ++ b ∷ []) h ≡ (if length chain == h then some b else get_elem? chain h)
get_elem?-append [] b zero = refl
get_elem?-append [] b (suc h) = ground arith
get_elem?-append (x ∷ chain) b zero = ground arith
get_elem?-append (x ∷ chain) b (suc h) = ground (arith, get_elem?-append chain b h)

-- Each gateway answers, from that state.
module _ (S : BlockStore) (s : S.State) where
  abbrev pub store_gateways : Gateways
  store_gateways = record {
    is_over = λ turn. false;
    answer = λ turn height. over_wire (get_blocks S s height 500);
    fails_over = λ turn. true;
    retry = λ turn height. over_wire (get_blocks S s height 500);
  }

module _ (S : BlockStore) (s : S.State) (chain : List Block) where
  -- The store holds the chain, each block at its place, and nothing above it, at the heights of a
  -- uint64.
  abbrev pub IsHeld : Type 0
  IsHeld = (h : ℕ) → IsWord h → S.get_block s h ≡ ok (get_elem? chain h)

  collect_held :
      (room h : ℕ)
      → IsHeld
      → length chain < word
      → h < word
      → collect_blocks S s room h ≡ ok (take room (map block_to_pb (drop h chain)))
  unfolding collect_blocks
  collect_held zero h held small fits = refl
  collect_held (suc room) h held small fits = elim (Option-cases (get_elem? chain h)) [
    | inl gone ↦ rw (collect_blocks, held h fits, gone, drop-none chain h gone) refl
    | inr (b, here) ↦
        let (split, bound) = drop-some chain h b here in
        let next : (h + 1) % word ≡ suc h = omega arith in
        rw
          (
            collect_blocks,
            held h fits,
            here,
            split,
            next,
            collect_held room (suc h) held small (omega arith),
          )
          refl
  ]

  -- A scan over gateways whose store holds the chain, from the height behind any front of it, ends at
  -- the height behind the chain with what one pass over the rest of its blocks finds, within a turn
  -- for each of them and one more. There are fewer than 2 ^ 64
  -- blocks, with their places for heights, and the context does not end.
  pub fetch_history-get_blocks :
      (c : Crypto) (P : Primitives) (w : Wallet) (front rest : List BlockPb) (known : Known)
      → IsHeld
      → front ++ rest ≡ map block_to_pb chain
      → IsNumbered 0 (map block_to_pb chain)
      → length chain < word
      → (fetch_history c P w (store_gateways S s) (suc (length rest)) 0 (length front) known
          ≡ caught (scan_blocks c P w rest (length front) known))
        × ((scan_blocks c P w rest (length front) known).0 ≡ length chain)
  unfolding get_blocks batch_limit
  fetch_history-get_blocks c P w front rest known held e numbered small =
      let size = length-map chain block_to_pb in
      let (scan, next) =
        fetch_history-catches_up c P w (store_gateways S s) (map block_to_pb chain) 0 front rest
          known
          (
            λ turn height fits.
                ap over_wire (collect_held 500 height held small fits)
                ∙ ap (λ (l : List BlockPb). over_wire (ok (take 500 l)))
                    (sym (drop-map chain height)),
            λ turn. refl,
          )
          e numbered (omega arith) in
      (scan, next ∙ size)

-- A store that meets its laws holds a chain with the next block behind it, once that has been put.
pub put_block-IsHeld :
    (S : BlockStore) {Storable : Block → Type 0} (laws : IsBlockStore S Storable) (s s' : S.State)
    (chain : List Block) (b : Block)
    → IsHeld S s chain
    → length chain < word
    → Storable b
    → b.height ≡ length chain
    → S.put_block s b ≡ ok s'
    → IsHeld S s' (chain ++ b ∷ [])
put_block-IsHeld S laws s s' chain b held small storable place put = λ h fits.
    laws.get_block-put_block s b h storable (omega arith) fits put
    ∙ grind (arith, held h fits, get_elem?-append chain b h)
