-- ===== src/Client/Discovery/Waiting.antt =====
-- How long the rounds of `Connect` wait.
use Prim.Native.Nat.{min}
use open_chat.Prelude.{ℕ, zero, suc, ◌+◌, ◌*◌, ◌^◌, ◌≡◌, refl, ap, ◌∙◌, false, none, [], arith}
use open_chat.Go.Bytes.{Bytes}
use open_chat.Client.Discovery.{
  Discovery, World, dialling, next_backoff, rounds, connect, initial_backoff, max_backoff,
}
use open_chat.Client.Discovery.Reaching.{answering, rounds_wait}

-- The wait behind the n-th round.
abbrev pub backoff_at : ℕ → ℕ
backoff_at zero = initial_backoff
backoff_at (suc n) = next_backoff (backoff_at n)

-- The waits double from half a second to a quarter of a minute, and stay there.
pub backoff_at-doubles : (n : ℕ) → backoff_at n ≡ min (initial_backoff * 2 ^ n) max_backoff
unfolding next_backoff
backoff_at-doubles zero = refl
backoff_at-doubles (suc n) = ground (arith, backoff_at-doubles n)

waited :
    (world : World) (exclude : Bytes) (n k : ℕ) (d : Discovery)
    → ((r : ℕ) → (answering world exclude r d ≡ none) × (world.is_done r ≡ false))
    → rounds world exclude n k (backoff_at k) d ≡ dialling d (backoff_at (k + n))
unfolding rounds
waited world exclude zero k d quiet = ap (λ (i : ℕ). dialling d (backoff_at i)) (omega arith)
waited world exclude (suc n) k d quiet =
    rounds_wait world exclude n k (backoff_at k) d (quiet k).0
    ∙ ground (arith, (quiet k).1)
    ∙ waited world exclude n (suc k) d quiet
    ∙ ap (λ (i : ℕ). dialling d (backoff_at i)) (omega arith)

-- While no candidate answers and the context lives, `connect` keeps dialling, and the wait behind the
-- n-th round is half a second doubled n times, at most a quarter of a minute.
pub connect_waits :
    (world : World) (n : ℕ) (d : Discovery)
    → ((r : ℕ) → (answering world [] r d ≡ none) × (world.is_done r ≡ false))
    → connect world n d ≡ dialling d (min (initial_backoff * 2 ^ n) max_backoff)
unfolding connect
connect_waits world n d quiet =
    waited world [] n 0 d quiet
    ∙ ap (dialling d) (ap backoff_at (omega arith) ∙ backoff_at-doubles n)
