-- ===== src/Go/Int64.antt =====
-- `int64` arithmetic on the 64-bit patterns of two's complement, which `uint64(x)` leaves as they are.
use open_chat.Prelude.{
  ℕ, ◌+◌, ◌-◌, ◌*◌, ◌%◌, ◌^◌, ◌<◌, ◌≡◌, Bool, false, arith, leb, ltb, if◌then◌else◌,
}

abbrev pub word : ℕ
word = 2 ^ 64

abbrev pub IsWord : ℕ → Type 0
IsWord x = x < 2 ^ 64

unfoldable pub sub64 : ℕ → ℕ → ℕ
sub64 a b = (a + 2 ^ 64 - b) % 2 ^ 64

unfoldable pub is_negative : ℕ → Bool
is_negative a = leb (2 ^ 63) a

-- `if x < 0 { x = -x }`
unfoldable pub magnitude : ℕ → ℕ
unfolding is_negative sub64
magnitude a = if is_negative a then sub64 0 a else a

-- `time.Duration(ms) * time.Millisecond`, in nanoseconds, with the wrap of `int64`.
unfoldable pub nanoseconds : ℕ → ℕ
nanoseconds ms = ms * 1000000 % 2 ^ 64

-- `a > limit` for a limit that is not negative.
unfoldable pub exceeds : ℕ → ℕ → Bool
unfolding is_negative
exceeds a limit = if is_negative a then false else ltb limit a

-- The distance of two instants.
abbrev pub distance : ℕ → ℕ → ℕ
distance a b = if leb b a then a - b else b - a

-- `skew := a - b; if skew < 0 { skew = -skew }; time.Duration(skew)*time.Millisecond > limit`
unfoldable pub is_stale : ℕ → ℕ → ℕ → Bool
unfolding sub64 magnitude nanoseconds exceeds
is_stale now timestamp limit = exceeds (nanoseconds (magnitude (sub64 now timestamp))) limit

-- The freshness check of two instants that are not negative and less than 2 ^ 43 ms (some 278
-- years) apart is exact: it fails if and only if they are further apart than the window, if that
-- is below 2 ^ 43 ms too.
pub is_stale-eq-distance :
    (now timestamp window : ℕ)
    → now < 2 ^ 63
    → timestamp < 2 ^ 63
    → distance now timestamp < 2 ^ 43
    → window < 2 ^ 43
    → is_stale now timestamp (window * 1000000) ≡ ltb window (distance now timestamp)
unfolding is_stale
is_stale-eq-distance now timestamp window hn ht near hw = ground arith

-- A timestamp that is a multiple of 2 ^ 58 ms in the future is never stale, whatever the window:
-- 2 ^ 58 milliseconds are 15625 * 2 ^ 64 nanoseconds, and the product wraps to nothing.
pub is_stale_wraps :
    (now k limit : ℕ)
    → k < 32
    → now + k * 2 ^ 58 < 2 ^ 63
    → is_stale now (now + k * 2 ^ 58) limit ≡ false
unfolding is_stale
is_stale_wraps now k limit hk h = ground arith
