-- ===== src/Commands/Keytool.antt =====
-- What the keytool prints, against what a node makes of it.
use open_chat.Prelude.{
  ◌≡◌, ◌≢◌, refl, ap, sym, ◌∙◌, Option, some, [], ◌∷◌, arith, length, Result, ok, ok_inj,
  Option-cases, inl, inr,
}
use open_chat.Go.Bytes.{Bytes, IsBytes, eq_bytes, eq_bytes_ne, codes}
use open_chat.Go.Text.{trim_space-printable}
use open_chat.Go.Hex.{encode, encode_ne, decode-encode, encode-IsPrintable}
use open_chat.Crypto.{Crypto}
use open_chat.Client.Primitives.{Primitives}
use open_chat.Node.Config.{ConfigError, Process, load_validator_key, seed_hex, key_of_hex}
use open_chat.Network.{expand_seed, identity_from_seed, peer_id_from_seed}
use open_chat.Commands.{keytool, seed_of}

seed_ne : (b : Bytes) → length b ≡ 32 → b ≢ []
seed_ne [] h = absurd (omega arith)
seed_ne (x ∷ b) h = λ e. absurd cc

-- The node takes the seed for the key that the keytool shows.
loaded_key :
    (c : Crypto) (P : Primitives) (p : Process) (seed : Bytes)
    → IsBytes seed
    → length seed ≡ 32
    → p.getenv (codes "VALIDATOR_PRIVATE_KEY_FILE") ≡ []
    → p.getenv (codes "VALIDATOR_PRIVATE_KEY_SEED") ≡ encode seed
    → load_validator_key c P p
      ≡ ok (P.key_from_seed seed, encode (c.public_key (P.key_from_seed seed)))
unfolding load_validator_key seed_hex key_of_hex eq_bytes
loaded_key c P p seed bytes size no_file variable =
    rw
      (
        load_validator_key,
        seed_hex,
        no_file,
        variable,
        trim_space-printable (encode seed) (encode-IsPrintable seed bytes),
        key_of_hex,
        eq_bytes_ne (encode seed) [] (encode_ne seed (seed_ne seed size)),
        decode-encode seed bytes,
        size,
      )
      refl

expand_seed_twice :
    (P : Primitives) (seed : Bytes)
    → length seed ≡ 32
    → length (P.key_from_seed seed) ≡ 64
    → expand_seed P (P.key_from_seed seed) ≡ expand_seed P seed
unfolding expand_seed
expand_seed_twice P seed size full = ground (arith, size, full)

same_identity :
    (P : Primitives) (unmarshal peer_id : Bytes → Option Bytes) (seed : Bytes)
    → length seed ≡ 32
    → length (P.key_from_seed seed) ≡ 64
    → peer_id_from_seed P unmarshal peer_id (P.key_from_seed seed)
      ≡ peer_id_from_seed P unmarshal peer_id seed
unfolding peer_id_from_seed identity_from_seed
same_identity P unmarshal peer_id seed size full =
    rw (peer_id_from_seed, identity_from_seed, expand_seed_twice P seed size full) refl

parts :
    {a b c d e f : Bytes}
    → ◌≡◌ {A = Bytes × Bytes × Bytes} (a, b, c) (d, e, f)
    → (a ≡ d) × (b ≡ e) × (c ≡ f)
parts h = (
  ap (λ (t : Bytes × Bytes × Bytes). t.0) h,
  ap (λ (t : Bytes × Bytes × Bytes). t.1) h,
  ap (λ (t : Bytes × Bytes × Bytes). t.2) h,
)

abbrev loaded : Bytes → Bytes → Result ConfigError (Bytes × Bytes)
loaded priv addr = ok (priv, addr)

-- What the keytool prints for a fresh seed of 32 bytes is what a node with that seed in its variable,
-- and no key file, comes to: its address in the validator set, and its peer id in the network. An
-- Ed25519 private key has 64 bytes.
pub keytool-load_validator_key :
    (c : Crypto) (P : Primitives) (p : Process) (unmarshal peer_id : Bytes → Option Bytes)
    (seed shown addr id : Bytes)
    → IsBytes seed
    → length seed ≡ 32
    → length (P.key_from_seed seed) ≡ 64
    → keytool c P unmarshal peer_id [] (some seed) ≡ ok (shown, addr, id)
    → p.getenv (codes "VALIDATOR_PRIVATE_KEY_FILE") ≡ []
    → p.getenv (codes "VALIDATOR_PRIVATE_KEY_SEED") ≡ shown
    → (priv : Bytes) × (load_validator_key c P p ≡ ok (priv, addr))
      × (peer_id_from_seed P unmarshal peer_id priv ≡ some id)
unfolding keytool seed_of eq_bytes
keytool-load_validator_key c P p unmarshal peer_id seed shown addr id bytes size full e no_file
      variable =
    elim (Option-cases (peer_id_from_seed P unmarshal peer_id seed)) [
      | inl missing ↦ absurd (ground (arith, rw (keytool, seed_of, missing) at e))
      | inr (found, known) ↦
          let lines = ok_inj (rw (keytool, seed_of, known) at e) in
          let (same_seed, same_addr, same_id) = parts lines in
          (
            P.key_from_seed seed,
            loaded_key c P p seed bytes size no_file (variable ∙ sym same_seed)
                ∙ ap (λ (a : Bytes). loaded (P.key_from_seed seed) a) same_addr,
            same_identity P unmarshal peer_id seed size full ∙ known ∙ ap some same_id,
          )
    ]
