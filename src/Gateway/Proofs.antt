-- ===== src/Gateway/Proofs.antt =====
-- pkg/authproof/authproof.go and pkg/relayproof/relayproof.go: what the owner of an address signs.
use mathlib.Core.List.{append_assoc}
use open_chat.Prelude.{ℕ, ◌≡◌, ◌++◌, length, append_inj}
use open_chat.Go.Bytes.{Bytes}
use open_chat.Go.BigEndian.{put_u64, put_u64_inj}
use open_chat.Go.Int64.{IsWord}

unfoldable pub auth_bytes : Bytes → ℕ → Bytes
auth_bytes address timestamp = address ++ put_u64 timestamp

unfoldable pub relay_bytes : Bytes → Bytes → Bytes → Bytes → ℕ → Bytes
relay_bytes relay_address grpc_address version commit timestamp =
    relay_address ++ (grpc_address ++ (version ++ (commit ++ put_u64 timestamp)))

-- For addresses of one length, equal bytes mean an equal address and time.
pub auth_bytes_inj :
    (a b : Bytes) (s t : ℕ)
    → length a ≡ length b
    → IsWord s
    → IsWord t
    → auth_bytes a s ≡ auth_bytes b t
    → (a ≡ b) × (s ≡ t)
unfolding auth_bytes
auth_bytes_inj a b s t l ws wt e =
    let (same, rest) = append_inj a _ b _ l e in (same, put_u64_inj s t ws wt rest)

-- What ends the endpoint may begin the version: both registrations have the same bytes, and so the
-- same signatures.
pub shifted_endpoint :
    (relay_address grpc_address tail version commit : Bytes) (timestamp : ℕ)
    → relay_bytes relay_address (grpc_address ++ tail) version commit timestamp
      ≡ relay_bytes relay_address grpc_address (tail ++ version) commit timestamp
unfolding relay_bytes
shifted_endpoint a g d v c t = simp append_assoc
