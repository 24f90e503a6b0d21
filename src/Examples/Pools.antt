-- ===== src/Examples/Pools.antt =====
-- A pool that alice has written to.
use mathlib.Core.List.{Perm}
use mathlib.Core.List.Permᴰ
use open_chat.Prelude.{◌≡◌, ◌≢◌, refl, inl, ◌∷◌, [], List, ok, Member}
use open_chat.Go.Bytes.{eq_bytes}
use open_chat.Go.Map.{values, insert, lookup}
use open_chat.Go.Hex.{decode}
use open_chat.Go.Int64.{is_stale}
use open_chat.Go.BigEndian.{put_u64}
use open_chat.Crypto.{toy}
use open_chat.Blockchain.Transaction
use open_chat.Blockchain.Transaction.{Transaction, decode_address}
use open_chat.Mempool.{Mempool, add, admit, charge, floor_of, limiter_of, new_pool, sort}
use open_chat.Mempool.Order.{HasDistinctSlots, sort-perm}
use open_chat.Mempool.Invariant.{IsWellFormed}
use open_chat.Mempool.Admission.{
  Call, adds, removes, run, reachable-IsWellFormed, pending_is_refused,
}
use open_chat.Examples.Toys.{greeting, signed_greeting, generous, fresh_nonces}

abbrev calls : List Call
calls =
    adds fresh_nonces 2000 (signed_greeting 1)
    ∷ adds fresh_nonces 2000 (greeting 2)
    ∷ removes (signed_greeting 1 ∷ [])
    ∷ adds fresh_nonces 2000 (signed_greeting 3)
    ∷ []

reachable-IsWellFormed_example :
    IsWellFormed toy generous (run toy generous (new_pool toy generous) calls)
reachable-IsWellFormed_example = reachable-IsWellFormed toy generous calls

abbrev one_call : List Call
one_call = adds fresh_nonces 2000 (signed_greeting 1) ∷ []

abbrev busy : Mempool toy generous
busy = run toy generous (new_pool toy generous) one_call

holds_one : Member (signed_greeting 1) (values busy.by_hash)
unfolding add admit is_stale Transaction.verify Transaction.sign Transaction.signing_bytes
    decode_address decode eq_bytes insert lookup put_u64 floor_of limiter_of charge new_pool
holds_one = inl refl

pending_is_refused_example :
    (add toy generous (run toy generous busy calls) fresh_nonces 3000 (signed_greeting 1)).0 ≢ ok tt
pending_is_refused_example =
    pending_is_refused toy generous busy calls fresh_nonces 3000 (signed_greeting 1)
      (reachable-IsWellFormed toy generous one_call) holds_one

abbrev up : List Transaction
up = greeting 1 ∷ greeting 2 ∷ []

abbrev down : List Transaction
down = greeting 2 ∷ greeting 1 ∷ []

turned : Perm up down
turned = ∣ Permᴰ.swap refl refl ∣₁

distinct_slots : HasDistinctSlots up
unfolding eq_bytes
distinct_slots = ((refl, tt), (tt, tt))

sort-perm_example : sort up ≡ sort down
sort-perm_example = sort-perm turned distinct_slots
