-- ===== src/Go/Decimal.antt =====
-- `fmt.Sprintf("%d", n)`.
use open_chat.Prelude.{
  ℕ, zero, suc, ◌+◌, ◌-◌, ◌*◌, ◌/◌, ◌%◌, ◌≤◌, ◌<◌, ◌≡◌, refl, ap, [], ◌∷◌, ◌++◌, arith, ltb,
  if◌then◌else◌, All, sym, ◌∙◌, Bool-cases, inl, inr,
}
use open_chat.Go.Bytes.{Bytes}

-- The lowest digit is written first, in front of the digits written so far.
decimal_loop : ℕ → ℕ → Bytes → Bytes
decimal_loop zero n done = done
decimal_loop (suc fuel) n done =
    let more = decimal_loop fuel (n / 10) ((48 + n % 10) ∷ done) in
    if ltb n 10 then (48 + n) ∷ done else more

-- A number has at most as many digits as its value and one.
unfoldable pub decimal : ℕ → Bytes
unfolding decimal_loop
decimal n = decimal_loop (suc n) n []

parse : ℕ → Bytes → ℕ
parse n [] = n
parse n (d ∷ ds) = parse (n * 10 + (d - 48)) ds

parse-decimal_loop :
    (fuel n : ℕ) (done : Bytes) → n < fuel → parse 0 (decimal_loop fuel n done) ≡ parse n done
unfolding parse decimal_loop
parse-decimal_loop zero n done h = absurd (omega arith)
parse-decimal_loop (suc fuel) n done h = elim (Bool-cases (ltb n 10)) [
  | inl small ↦ rw small (ap (λ (k : ℕ). parse k done) (omega arith))
  | inr large ↦ rw large (
      parse-decimal_loop fuel (n / 10) ((48 + n % 10) ∷ done) (ground arith)
      ∙ ap (λ (k : ℕ). parse k done) (omega arith))
]

parse-decimal : (n : ℕ) → parse 0 (decimal n) ≡ n
unfolding decimal parse
parse-decimal n = parse-decimal_loop (suc n) n [] (omega arith)

pub decimal_inj : (m n : ℕ) → decimal m ≡ decimal n → m ≡ n
decimal_inj m n e = sym (parse-decimal m) ∙ ap (parse 0) e ∙ parse-decimal n

abbrev pub IsDigit : ℕ → Type 0
IsDigit d = (48 ≤ d) × (d < 58)

decimal_loop-IsDigit :
    (fuel n : ℕ) (done : Bytes) → All IsDigit done → All IsDigit (decimal_loop fuel n done)
unfolding decimal_loop
decimal_loop-IsDigit zero n done h = h
decimal_loop-IsDigit (suc fuel) n done h = elim (Bool-cases (ltb n 10)) [
  | inl small ↦ rw small (((omega arith), (ground arith)), h)
  | inr large ↦
      rw large
        (decimal_loop-IsDigit fuel (n / 10) ((48 + n % 10) ∷ done) ((omega arith, omega arith), h))
]

pub decimal-IsDigit : (n : ℕ) → All IsDigit (decimal n)
unfolding decimal
decimal-IsDigit n = decimal_loop-IsDigit (suc n) n [] tt

-- A slash, byte 47, is no digit: the digits in front of one are determined.
pub before_slash :
    (xs ys us vs : Bytes)
    → All IsDigit xs
    → All IsDigit us
    → xs ++ 47 ∷ ys ≡ us ++ 47 ∷ vs
    → (xs ≡ us) × (ys ≡ vs)
before_slash [] ys [] vs hx hu e = ground arith
before_slash [] ys (u ∷ us) vs hx hu e = absurd (ground arith)
before_slash (x ∷ xs) ys [] vs hx hu e = absurd (ground arith)
before_slash (x ∷ xs) ys (u ∷ us) vs hx hu e = ground (arith, before_slash xs ys us vs hx.1 hu.1)

decimal_example : decimal 1045 ≡ 49 ∷ 48 ∷ 52 ∷ 53 ∷ []
unfolding decimal
decimal_example = refl
