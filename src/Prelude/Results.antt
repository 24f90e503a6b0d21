-- ===== src/Prelude/Results.antt =====
-- Values or errors.
use mathlib.Core.Path.{◌≡◌, refl, ap}
use mathlib.Core.Logic.{◌⊎◌, inl, inr}

-- Go's `(value, error)` pair: a value, or an error and no value.
pub data Result {ℓ} (E A : Type ℓ) : Type ℓ where
  ok : A → Result E A
  err : E → Result E A

pub Result-cases {ℓ} :
    {E A : Type ℓ} (r : Result E A) → ((e : E) × (r ≡ err e)) ⊎ ((a : A) × (r ≡ ok a))
Result-cases (ok a) = inr (a, refl)
Result-cases (err e) = inl (e, refl)

abbrev value_or {ℓ} : {E A : Type ℓ} → A → Result E A → A
value_or x (ok a) = a
value_or x (err e) = x

pub ok_inj {ℓ} : {E A : Type ℓ} {x y : A} → ◌≡◌ {A = Result E A} (ok x) (ok y) → x ≡ y
ok_inj {x = x} e = ap (value_or x) e

infixl 5 ◌>>=◌
-- `if err != nil { return err }` in front of the rest.
abbrev pub ◌>>=◌ {ℓ} :
    {E Early Late : Type ℓ} (first : Result E Early) (next : Early → Result E Late) → Result E Late
err why >>= next = err why
ok early >>= next = next early

-- A chain that ends well went on from a first step that ended well.
pub split_chain {ℓ} :
    {E Early Late : Type ℓ} (next : Early → Result E Late) (first : Result E Early) {late : Late}
    → (first >>= next) ≡ ok late
    → (early : Early) × (next early ≡ ok late) × (first ≡ ok early)
split_chain next (err why) chain = cc
split_chain next (ok early) chain = (early, chain, refl)
