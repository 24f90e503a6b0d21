-- ===== src/App/Vault.antt =====
-- internal/app/wallet_store.go: the mnemonic of a wallet, sealed with a PIN in one file. scrypt and
-- base64.StdEncoding are parameters; the random salt and nonce are arguments, `none` where the read
-- failed.
use open_chat.Prelude.{
  ◌≡◌, refl, ap, ap₂, ◌∙◌, true, false, not, Option, none, some, ◌==◌, if◌then◌else◌, arith, length,
  Result, ok, err, ◌>>=◌, Option-cases, inl, inr,
}
use open_chat.Go.Bytes.{Bytes, IsBytes}
use open_chat.Go.Base64.{IsPrintable}
use open_chat.Client.Primitives.{Primitives}
use open_chat.App.Device.{File, Json, DiskError, or_not_json}

pub record WalletFile : Type 0 where
  pub salt : Bytes
  pub nonce : Bytes
  pub ciphertext : Bytes

pub record Derivation : Type 0 where
  -- scrypt.Key at a PIN and a salt, with N = 2^15, r = 8, p = 1 and 32 bytes
  pub key : Bytes → Bytes → Option Bytes
  -- base64.StdEncoding
  pub encode : Bytes → Bytes
  pub decode : Bytes → Option Bytes
  pub decode-encode : (b : Bytes) → IsBytes b → decode (encode b) ≡ some b
  pub encode-IsPrintable : (b : Bytes) → IsBytes b → IsPrintable (encode b)

pub data VaultError : Type 0 where
  no_randomness no_derived_key not_base64 wrong_pin : VaultError
  storage : DiskError → VaultError
  -- `gcm.Open` panics at a nonce that has not 12 bytes
  panicked : VaultError

abbrev pub or_vault_error : {A : Type 0} → VaultError → Option A → Result VaultError A
or_vault_error why none = err why
or_vault_error why (some a) = ok a

abbrev pub or_storage : {A : Type 0} → Result DiskError A → Result VaultError A
or_storage (err why) = err (storage why)
or_storage (ok a) = ok a

-- JSON gives a file back whose texts are printable ASCII.
abbrev pub IsFaithful : Json WalletFile → Type 0
IsFaithful J =
    (wf : WalletFile) (raw : Bytes)
    → IsPrintable wf.salt
    → IsPrintable wf.nonce
    → IsPrintable wf.ciphertext
    → J.marshal wf ≡ some raw
    → J.unmarshal raw ≡ some wf

module _ (P : Primitives) (D : Derivation) (J : Json WalletFile) where
  -- The text of the file, up to the write.
  unfoldable pub sealed_file : Bytes → Bytes → Option Bytes → Option Bytes → Result VaultError Bytes
  sealed_file mnemonic pin random_salt random_nonce = do
    salt ← or_vault_error no_randomness random_salt
    key ← or_vault_error no_derived_key (D.key pin salt)
    nonce ← or_vault_error no_randomness random_nonce
    or_storage (
        or_not_json (
          J.marshal (record {
            salt = D.encode salt;
            nonce = D.encode nonce;
            ciphertext = D.encode (P.seal key nonce mnemonic);
          })))

  unfoldable pub opened_file : Bytes → WalletFile → Result VaultError Bytes
  opened_file pin wf = do
    salt ← or_vault_error not_base64 (D.decode wf.salt)
    nonce ← or_vault_error not_base64 (D.decode wf.nonce)
    ct ← or_vault_error not_base64 (D.decode wf.ciphertext)
    key ← or_vault_error no_derived_key (D.key pin salt)
    if not (length nonce == 12)
        then err panicked
        else or_vault_error wrong_pin (P.unseal key nonce ct)

  module _ (F : File) where
    unfoldable pub save :
        Bytes → Bytes → Option Bytes → Option Bytes → F.Disk → Result VaultError (Unit {0}) × F.Disk
    save mnemonic pin random_salt random_nonce d =
        elim (sealed_file mnemonic pin random_salt random_nonce) [
          | err why ↦ (err why, d)
          | ok raw ↦ let (answer, d') = F.write d raw in (or_storage answer, d')
        ]

    unfoldable pub load : Bytes → F.Disk → Result VaultError Bytes
    load pin d = do
      raw ← or_storage (F.read d)
      wf ← or_storage (or_not_json (J.unmarshal raw))
      opened_file pin wf

    unfoldable pub delete : F.Disk → Result VaultError (Unit {0}) × F.Disk
    delete d =
        let (answer, d') = F.delete d in
        elim (F.exists d) [
          | err why ↦ (err (storage why), d)
          | ok false ↦ (ok tt, d)
          | ok true ↦ (or_storage answer, d')
        ]

    sealed_parts : Bytes → Bytes → Bytes → Bytes → WalletFile
    sealed_parts mnemonic salt nonce key = record {
      salt = D.encode salt;
      nonce = D.encode nonce;
      ciphertext = D.encode (P.seal key nonce mnemonic);
    }

    or_storage-ok : (r : Result DiskError (Unit {0})) → or_storage r ≡ ok tt → r ≡ ok tt
    or_storage-ok (ok tt) e = refl
    or_storage-ok (err why) e = cc

    -- A save that ends well has written the sealed file.
    saved_file :
        (mnemonic pin salt nonce key : Bytes) (d d' : F.Disk)
        → D.key pin salt ≡ some key
        → save mnemonic pin (some salt) (some nonce) d ≡ (ok tt, d')
        → (raw : Bytes) × (J.marshal (sealed_parts mnemonic salt nonce key) ≡ some raw)
          × (F.read d' ≡ ok raw)
    unfolding save sealed_file sealed_parts
    saved_file mnemonic pin salt nonce key d d' derived saved =
        elim (Option-cases (J.marshal (sealed_parts mnemonic salt nonce key))) [
          | inl bad ↦ absurd (ground (arith, rw (save, sealed_file, derived, bad) at saved))
          | inr (raw, made) ↦
              let done = rw (save, sealed_file, derived, made) at saved in
              let fine =
                or_storage-ok (F.write d raw).0
                  (ap (λ (p : Result VaultError (Unit {0}) × F.Disk). p.0) done) in
              let left = ap (λ (p : Result VaultError (Unit {0}) × F.Disk). p.1) done in
              let (_, back) =
                F.read-write d d' raw
                  (ap₂ (λ (r : Result DiskError (Unit {0})) (e : F.Disk). (r, e)) fine left) in
              (raw, made, back)
        ]

    open_sealed :
        (mnemonic other salt nonce key other_key : Bytes)
        → IsBytes salt
        → IsBytes nonce
        → IsBytes (P.seal key nonce mnemonic)
        → length nonce ≡ 12
        → D.key other salt ≡ some other_key
        → opened_file other (sealed_parts mnemonic salt nonce key)
          ≡ or_vault_error wrong_pin (P.unseal other_key nonce (P.seal key nonce mnemonic))
    unfolding opened_file sealed_parts
    open_sealed mnemonic other salt nonce key other_key sb nb cb twelve derived =
        rw
          (
            opened_file,
            D.decode-encode salt sb,
            D.decode-encode nonce nb,
            D.decode-encode (P.seal key nonce mnemonic) cb,
            derived,
            twelve,
          )
          refl

    -- A mnemonic that was saved without an error is read back with its PIN, and with another PIN
    -- exactly if the key derived from that one opens the ciphertext. Salt, nonce and ciphertext
    -- are bytes, 12 of them the nonce, both PINs derive a key, and JSON gives back a
    -- file of printable texts.
    pub load-save :
        (mnemonic pin other salt nonce key other_key : Bytes) (d d' : F.Disk)
        → IsFaithful J
        → IsBytes salt
        → IsBytes nonce
        → IsBytes (P.seal key nonce mnemonic)
        → length nonce ≡ 12
        → D.key pin salt ≡ some key
        → D.key other salt ≡ some other_key
        → save mnemonic pin (some salt) (some nonce) d ≡ (ok tt, d')
        → (load pin d' ≡ ok mnemonic)
          × (load other d'
              ≡ or_vault_error wrong_pin (P.unseal other_key nonce (P.seal key nonce mnemonic)))
    unfolding load sealed_parts
    load-save mnemonic pin other salt nonce key other_key d d' faithful sb nb cb twelve derived
          theirs saved =
        let (raw, made, back) = saved_file mnemonic pin salt nonce key d d' derived saved in
        let decoded =
          faithful (sealed_parts mnemonic salt nonce key) raw (D.encode-IsPrintable salt sb)
            (D.encode-IsPrintable nonce nb) (D.encode-IsPrintable (P.seal key nonce mnemonic) cb)
            made in
        (
          rw (load, back, decoded)
              (open_sealed mnemonic pin salt nonce key key sb nb cb twelve derived
                ∙ ap (or_vault_error wrong_pin) (P.unseal-seal key nonce mnemonic)),
          rw (load, back, decoded)
              (open_sealed mnemonic other salt nonce key other_key sb nb cb twelve theirs),
        )
