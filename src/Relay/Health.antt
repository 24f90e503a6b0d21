-- ===== src/Relay/Health.antt =====
-- How many failed probes it takes.
use open_chat.Prelude.{ℕ, zero, suc, ◌+◌, ◌≤◌, ◌<◌, ◌≡◌, refl, true, false, arith}
use open_chat.Go.Bytes.{Bytes, eq_bytes_refl}
use open_chat.Go.Map.{lookup-insert}
use open_chat.Gateway.Registry.{get}
use open_chat.Gateway.Registry.Views.{get-set_health, probed}
use open_chat.Relay.{Prober, failures_of, note_probe}

-- So many failed probes of one relay in a row, all at one time.
abbrev pub fail_times : ℕ → ℕ → Prober → Bytes → ℕ → Prober
fail_times zero max_failures p addr now = p
fail_times (suc k) max_failures p addr now =
    fail_times k max_failures (note_probe max_failures p addr false now) addr now

note_failure :
    (max_failures : ℕ) (p : Prober) (addr : Bytes) (now : ℕ)
    → failures_of p addr + 1 < max_failures
    → ((note_probe max_failures p addr false now).registry ≡ p.registry)
      × (failures_of (note_probe max_failures p addr false now) addr ≡ failures_of p addr + 1)
unfolding note_probe failures_of
note_failure max_failures p addr now h = (
  ground arith,
  ground (arith, eq_bytes_refl addr, lookup-insert p.failures addr addr (failures_of p addr + 1)),
)

-- Failed probes that stay below the limit leave the registry as it is, and are counted.
pub fail_times-keeps :
    (k max_failures : ℕ) (p : Prober) (addr : Bytes) (now : ℕ)
    → failures_of p addr + k < max_failures
    → ((fail_times k max_failures p addr now).registry ≡ p.registry)
      × (failures_of (fail_times k max_failures p addr now) addr ≡ failures_of p addr + k)
fail_times-keeps zero max_failures p addr now h = (refl, omega arith)
fail_times-keeps (suc k) max_failures p addr now h =
    let (same, more) = note_failure max_failures p addr now (omega arith) in
    let (rest, count) =
      fail_times-keeps k max_failures (note_probe max_failures p addr false now) addr now
        (omega (arith, more)) in
    (ground arith, omega (arith, count, more))

-- The failure that reaches the limit marks the relay unhealthy, and a probe that succeeds marks it
-- healthy and forgets its failures.
pub note_probe_lem :
    (max_failures : ℕ) (p : Prober) (addr : Bytes) (now : ℕ)
    → (max_failures ≤ failures_of p addr + 1
        → get (note_probe max_failures p addr false now).registry addr
          ≡ probed false now (get p.registry addr))
      × (get (note_probe max_failures p addr true now).registry addr
          ≡ probed true now (get p.registry addr))
      × (failures_of (note_probe max_failures p addr true now) addr ≡ 0)
unfolding note_probe failures_of
note_probe_lem max_failures p addr now =
    let self = eq_bytes_refl addr in
    (
      λ reached. ground (arith, self, get-set_health p.registry addr false now addr),
      ground (arith, self, get-set_health p.registry addr true now addr),
      ground (arith, self, lookup-insert p.failures addr addr 0),
    )
