-- ===== src/Vault/Sealed.antt =====
-- What internal/vault/vault.go seals, it opens again.
use go_webssh.Base.{
  ℕ, ◌≤◌, ◌≡◌, sym, inl, inr, true, Option, some, [], ◌∷◌, ◌++◌, ok, arith, length, length-append,
  take-append, drop-append, Option-cases, Result-cases,
}
use go_webssh.Text.Laws.{text_eq_refl}
use go_webssh.Auth.Primitives.{Bytes, Aead, IsAead}
use go_webssh.Vault.Primitives.{Library, HasAead, HasLengths}
use go_webssh.Vault.{is_v2, encrypt, encrypt_v2, decrypt, decrypt_record, v2_prefix}

module _ (lib : Library) (random : ℕ → Option Bytes) (ciphers : HasAead lib)
    (lengths : HasLengths random) where
  open_sealed :
      (aead : Aead) (key nonce text aad : Bytes)
      → lib.aead key ≡ some aead
      → IsAead aead
      → length nonce ≡ aead.nonce_size
      → decrypt lib key (nonce ++ aead.seal nonce text aad) aad ≡ some text
  unfolding decrypt
  open_sealed aead key nonce text aad e opens len =
      rw
        (
          decrypt,
          e,
          take-append aead.nonce_size nonce (aead.seal nonce text aad) len,
          drop-append aead.nonce_size nonce (aead.seal nonce text aad) len,
          opens.opens nonce text aad,
        )
        (ground (arith, length-append nonce (aead.seal nonce text aad), len))

  -- What encrypt returns is not empty, and opens under the same key and additional data.
  decrypt-encrypt :
      (key text aad sealed : Bytes)
      → encrypt lib random key text aad ≡ ok sealed
      → (decrypt lib key sealed aad ≡ some text) × (1 ≤ length sealed)
  unfolding encrypt
  decrypt-encrypt key text aad sealed h = elim (Option-cases (lib.aead key)) [
    | inl no_key ↦ absurd (ground arith)
    | inr (aead, e) ↦ elim (Option-cases (random aead.nonce_size)) [
      | inl no_nonce ↦ absurd (ground arith)
      | inr (nonce, filled) ↦
          let same : nonce ++ aead.seal nonce text aad ≡ sealed = ground (arith, h) in
          let len = lengths aead.nonce_size nonce filled in
          rw (sym same) (
            open_sealed aead key nonce text aad e (ciphers key aead e).0 len,
            ground (
              arith,
              length-append nonce (aead.seal nonce text aad),
              len,
              (ciphers key aead e).1,
            ),
          )
    ]
  ]

  is_v2-prefix : (sealed : Bytes) → 1 ≤ length sealed → is_v2 (v2_prefix ++ sealed) ≡ true
  unfolding is_v2
  is_v2-prefix [] h = absurd (ground arith)
  is_v2-prefix (b ∷ sealed) h = rw (text_eq_refl v2_prefix) (ground arith)

  -- A record that is sealed under the master key is of the new form, and opens under the same key for
  -- the same id to the same text.
  pub decrypt_record-encrypt_v2 :
      (key text id sealed : Bytes)
      → encrypt_v2 lib random key text id ≡ ok sealed
      → (is_v2 sealed ≡ true) × (decrypt_record lib key sealed id ≡ some text)
  unfolding encrypt_v2 decrypt_record
  decrypt_record-encrypt_v2 key text id sealed h =
      elim (Result-cases (encrypt lib random key text id)) [
        | inr (e, fails) ↦ absurd (ground arith)
        | inl (inner, done) ↦
            let same : v2_prefix ++ inner ≡ sealed = ground (arith, h, done) in
            let (opens, given) = decrypt-encrypt key text id inner done in
            let marked = is_v2-prefix inner given in
            rw (sym same) (marked, rw (decrypt_record, marked) opens)
      ]
