-- ===== src/Client/Listening/Delivering.antt =====
-- What a listener hands to the callback.
use mathlib.Core.List.{append_assoc, append-nil}
use open_chat.Prelude.{
  ℕ, zero, suc, ◌≡◌, ◌≤◌, ◌<◌, ◌+◌, ◌==◌, subst, sym, ap, ◌∙◌, true, false, Option, none, some,
  List, [], ◌∷◌, ◌++◌, arith, Option-cases, Bool-cases, inl, inr,
}
use open_chat.Client.Primitives.{Primitives}
use open_chat.Client.Wallet.{Wallet}
use open_chat.Client.Listening.{
  IncomingMessage, StreamItem, Callback, received, consume, hear, Streams, listen, Halt, over,
  no_gateway, listening,
}

-- A turn behind which the next one begins: the context goes on, and a gateway is found.
abbrev IsPassed : Streams → ℕ → Type 0
IsPassed s turn =
    (s.is_over turn ≡ false) × (s.is_over_after turn ≡ false) × (s.fails_over turn ≡ true)

abbrev ArePassed : Streams → ℕ → ℕ → Type 0
ArePassed s turn n = (r : ℕ) → turn ≤ r → r < turn + n → IsPassed s r

-- Why a listener that has taken the streams of `taken` turns, from `turn` on, ends there.
pub data IsEnd (s : Streams) (fuel turn : ℕ) : ℕ → Halt → Type 0 where
  over_at_start :
      (taken : ℕ)
      → ArePassed s turn taken
      → s.is_over (turn + taken) ≡ true
      → IsEnd s fuel turn taken over
  over_behind :
      (n : ℕ)
      → ArePassed s turn n
      → s.is_over (turn + n) ≡ false
      → s.is_over_after (turn + n) ≡ true
      → IsEnd s fuel turn (suc n) over
  none_found :
      (n : ℕ)
      → ArePassed s turn n
      → s.is_over (turn + n) ≡ false
      → s.is_over_after (turn + n) ≡ false
      → s.fails_over (turn + n) ≡ false
      → IsEnd s fuel turn (suc n) no_gateway
  still_at_it : ArePassed s turn fuel → IsEnd s fuel turn fuel listening

none_passed : (s : Streams) (turn : ℕ) → ArePassed s turn 0
none_passed s turn r from to = absurd (omega arith)

one_more :
    (s : Streams) (turn n : ℕ)
    → IsPassed s turn
    → ArePassed s (suc turn) n
    → ArePassed s turn (suc n)
one_more s turn n first later r from to = elim (Bool-cases (r == turn)) [
  | inl here ↦ subst (IsPassed s) (ground (arith, here)) first
  | inr there ↦ later r (ground (arith, there)) (omega arith)
]

next_turn :
    (s : Streams) (fuel turn taken : ℕ) (why : Halt)
    → IsPassed s turn
    → IsEnd s fuel (suc turn) taken why
    → IsEnd s (suc fuel) turn (suc taken) why
next_turn s fuel turn taken _ first (over_at_start _ passed o) =
    over_at_start (suc taken) (one_more s turn taken first passed) (ground (arith, o))
next_turn s fuel turn _ _ first (over_behind n passed o a) =
    over_behind (suc n) (one_more s turn n first passed) (ground (arith, o)) (ground (arith, a))
next_turn s fuel turn _ _ first (none_found n passed o a f) =
    none_found (suc n) (one_more s turn n first passed) (ground (arith, o)) (ground (arith, a))
      (ground (arith, f))
next_turn s fuel turn _ _ first (still_at_it passed) =
    still_at_it (one_more s turn fuel first passed)

module _ (P : Primitives) (w : Wallet) where
  -- The messages of a stream that the wallet can open, in their order.
  abbrev pub openable : List StreamItem → List IncomingMessage
  openable [] = []
  openable (item ∷ items) = elim (received P w item) [
    | none ↦ openable items
    | some m ↦ m ∷ openable items
  ]

  abbrev pub going_on : Callback
  going_on got = true

  consume_all :
      (got : List IncomingMessage) (items : List StreamItem)
      → consume P w going_on got items ≡ (false, got ++ openable items)
  unfolding consume
  consume_all got [] = ap (λ (l : List IncomingMessage). (false, l)) (sym (append-nil got))
  consume_all got (item ∷ items) = elim (Option-cases (received P w item)) [
    | inl e ↦ rw (consume, openable, e) (consume_all got items)
    | inr (m, e) ↦
        rw (consume, openable, e)
          (consume_all (got ++ m ∷ []) items
            ∙ ap (λ (l : List IncomingMessage). (false, l))
                (append_assoc got (m ∷ []) (openable items)))
  ]

  -- What one turn carries, and what the first turns carry.
  abbrev pub carried_by : Option (List StreamItem) → List IncomingMessage
  carried_by none = []
  carried_by (some items) = openable items

  abbrev pub carried : Streams → ℕ → ℕ → List IncomingMessage
  carried s zero turn = []
  carried s (suc n) turn = carried_by (s.opened turn) ++ carried s n (suc turn)

  hear_all :
      (s : Streams) (turn : ℕ) (got : List IncomingMessage)
      → hear P w going_on s turn got ≡ (false, got ++ carried_by (s.opened turn))
  unfolding hear
  hear_all s turn got = elim (Option-cases (s.opened turn)) [
    | inl e ↦ rw (hear, e) (ap (λ (l : List IncomingMessage). (false, l)) (sym (append-nil got)))
    | inr (items, e) ↦ rw (hear, e) (consume_all got items)
  ]

  -- How a listener ends whose callback always goes on, and what the callback has got by then.
  abbrev pub Delivered : Streams → ℕ → ℕ → List IncomingMessage → Type 0
  Delivered s fuel turn got =
      (taken : ℕ) × (taken ≤ fuel)
      × IsEnd s fuel turn taken (listen P w going_on s fuel turn got).0
      × ((listen P w going_on s fuel turn got).1 ≡ got ++ carried s taken turn)

  -- One turn's messages.
  one_carried :
      (s : Streams) (turn : ℕ) (got : List IncomingMessage)
      → got ++ carried_by (s.opened turn) ≡ got ++ carried s 1 turn
  one_carried s turn got =
      ap (λ (l : List IncomingMessage). got ++ l) (sym (append-nil (carried_by (s.opened turn))))

  -- With a callback that always goes on, a listener takes one stream after another: it ends before
  -- its turns are used up only at a turn where the context is over, at its start or behind the
  -- stream, or where no gateway is left, and at every turn before it has found another gateway. The
  -- callback has got, in their order and once each, exactly the messages that it can open of the
  -- streams of those turns.
  pub listen_lem :
      (s : Streams) (fuel turn : ℕ) (got : List IncomingMessage) → Delivered s fuel turn got
  unfolding listen
  listen_lem s zero turn got =
      (zero, omega arith, still_at_it (none_passed s turn), sym (append-nil got))
  listen_lem s (suc fuel) turn got =
      let heard = hear_all s turn got in
      let now = got ++ carried_by (s.opened turn) in
      let (taken, bound, end, rest) = listen_lem s fuel (suc turn) now in
      let none_before = none_passed s turn in
      elim (Bool-cases (s.is_over turn)) [
        | inl o ↦
            rw (listen, o)
              (
                zero,
                omega arith,
                over_at_start zero none_before (ground (arith, o)),
                sym (append-nil got),
              )
        | inr o ↦ elim (Bool-cases (s.is_over_after turn)) [
          | inl a ↦
              rw (listen, heard, o, a)
                (
                  1,
                  omega arith,
                  over_behind zero none_before (ground (arith, o)) (ground (arith, a)),
                  one_carried s turn got,
                )
          | inr a ↦ elim (Bool-cases (s.fails_over turn)) [
            | inl f ↦
                rw (listen, heard, o, a, f)
                  (
                    suc taken,
                    omega arith,
                    next_turn s fuel turn taken _ (o, a, f) end,
                    rest
                        ∙ append_assoc got (carried_by (s.opened turn))
                            (carried s taken (suc turn)),
                  )
            | inr f ↦
                rw (listen, heard, o, a, f)
                  (
                    1,
                    omega arith,
                    none_found zero none_before (ground (arith, o)) (ground (arith, a))
                        (ground (arith, f)),
                    one_carried s turn got,
                  )
          ]
        ]
      ]
