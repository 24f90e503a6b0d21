-- ===== src/Go/BigEndian.antt =====
-- `binary.BigEndian.PutUint64`, `PutUint32` and `Uint64`.
use open_chat.Prelude.{
  ℕ, ◌+◌, ◌*◌, ◌/◌, ◌%◌, ◌^◌, ◌<◌, ◌≡◌, refl, Option, none, some, [], ◌∷◌, arith, length,
}
use open_chat.Go.Bytes.{Bytes}

unfoldable pub put_u64 : ℕ → Bytes
put_u64 v =
    (v / 2 ^ 56 % 256)
    ∷ (v / 2 ^ 48 % 256)
    ∷ (v / 2 ^ 40 % 256)
    ∷ (v / 2 ^ 32 % 256)
    ∷ (v / 2 ^ 24 % 256)
    ∷ (v / 2 ^ 16 % 256)
    ∷ (v / 2 ^ 8 % 256)
    ∷ (v % 256)
    ∷ []

unfoldable pub put_u32 : ℕ → Bytes
put_u32 v = (v / 2 ^ 24 % 256) ∷ (v / 2 ^ 16 % 256) ∷ (v / 2 ^ 8 % 256) ∷ (v % 256) ∷ []

-- `Uint64` panics on a slice of fewer than eight bytes, here `none`, and ignores the rest.
unfoldable pub uint64 : Bytes → Option ℕ
uint64 (a ∷ b ∷ c ∷ d ∷ e ∷ f ∷ g ∷ h ∷ rest) =
    some
      (a * 2 ^ 56 + b * 2 ^ 48 + c * 2 ^ 40 + d * 2 ^ 32 + e * 2 ^ 24 + f * 2 ^ 16 + g * 2 ^ 8 + h)
uint64 _ = none

pub length-put_u64 : (v : ℕ) → length (put_u64 v) ≡ 8
unfolding put_u64
length-put_u64 v = refl

pub length-put_u32 : (v : ℕ) → length (put_u32 v) ≡ 4
unfolding put_u32
length-put_u32 v = refl

pub uint64-put_u64 : (v : ℕ) → v < 2 ^ 64 → uint64 (put_u64 v) ≡ some v
unfolding put_u64 uint64
uint64-put_u64 v h = ground arith

pub put_u64_inj : (v w : ℕ) → v < 2 ^ 64 → w < 2 ^ 64 → put_u64 v ≡ put_u64 w → v ≡ w
put_u64_inj v w hv hw e = cc (uint64-put_u64 v hv, uint64-put_u64 w hw)

pub put_u32_inj : (v w : ℕ) → v < 2 ^ 32 → w < 2 ^ 32 → put_u32 v ≡ put_u32 w → v ≡ w
unfolding put_u32
put_u32_inj v w hv hw e = ground arith
