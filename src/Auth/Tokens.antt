-- ===== src/Auth/Tokens.antt =====
-- Session tokens: what is signed verifies, and what verifies is signed.
use go_webssh.Base.{
  ◌≡◌, refl, ◌≢◌, ◌↔◌, inl, inr, true, false, some, [], ◌∷◌, ◌++◌, arith, is_empty, length,
  Option-cases,
}
use go_webssh.Text.{Text, has_prefix, cut}
use go_webssh.Text.Laws.{Avoids, text_eq_refl, text_eq_iff, cut-append, cut-eq-some}
use go_webssh.Auth.Primitives.{Crypto, IsBase64}
use go_webssh.Auth.{
  Authenticator, signed_token, verify_parts, verify_token, persistent_token_prefix,
}

pub is_empty-false : (s : Text) → s ≢ [] → is_empty s ≡ false
is_empty-false [] h = absurd (h refl)
is_empty-false (x ∷ s) h = refl

is_empty-nil : (s : Text) → is_empty s ≡ true → s ≡ []
is_empty-nil [] h = refl
is_empty-nil (x ∷ s) h = absurd (ground arith)

module _ (c : Crypto) (a : Authenticator) where
  -- The text is not empty and decodes to the token's MAC.
  abbrev pub IsSignature : Text → Text → Type 0
  IsSignature token sig = (sig ≢ []) × (c.decode sig ≡ some (c.mac a.session_secret token))

  verify_parts_accepts :
      (token sig : Text)
      → token ≢ []
      → IsSignature token sig
      → verify_parts c a token sig ≡ some token
  unfolding verify_parts
  verify_parts_accepts token sig given (n, decodes) = ground (
    arith,
    is_empty-false token given,
    is_empty-false sig n,
    text_eq_refl (c.mac a.session_secret token),
  )

  verify_parts_inv :
      (t sig token : Text)
      → verify_parts c a t sig ≡ some token
      → (t ≡ token) × (t ≢ []) × IsSignature t sig
  unfolding verify_parts
  verify_parts_inv t sig token h = elim (Option-cases (c.decode sig)) [
    | inl fails ↦ absurd (ground arith)
    | inr (b, e) ↦
        let mac = c.mac a.session_secret t in
        (ground arith, λ z. ground arith, (λ z. ground arith, ground (arith, text_eq_iff b mac)))
  ]

  -- A value verifies as a token exactly when it is the token, a dot, and a text that decodes to the
  -- token's MAC, where the token is not empty and has no dot and the text is not empty.
  pub verify_token_iff :
      (value token : Text)
      → (verify_token c a value ≡ some token) ↔ (
          (sig : Text) × (value ≡ token ++ b'.' ∷ sig)
          × Avoids b'.' token
          × (token ≢ [])
          × IsSignature token sig)
  unfolding verify_token
  verify_token_iff value token = (
    λ h. elim (Option-cases (cut b'.' value)) [
      | inl no_dot ↦ absurd (ground arith)
      | inr (p, e) ↦
          let (same, given, signed) = verify_parts_inv p.0 p.1 token (ground arith) in
          let (whole, clean) = cut-eq-some b'.' value p.0 p.1 e in
          (p.1, ground arith, rw (← same) clean, rw (← same) given, rw (← same) signed)
    ],
    λ (sig, whole, clean, given, signed). ground (
      arith,
      whole,
      cut-append b'.' token sig clean,
      verify_parts_accepts token sig given signed,
    ),
  )

  -- A token without dots that is signed verifies, as itself.
  pub verify_token-signed_token :
      (token : Text)
      → IsBase64 c
      → Avoids b'.' token
      → token ≢ []
      → verify_token c a (signed_token c a token) ≡ some token
  unfolding signed_token
  verify_token-signed_token token b clean given =
      let mac = c.mac a.session_secret token in
      (verify_token_iff (token ++ b'.' ∷ c.encode mac) token).1 (
        c.encode mac,
        refl,
        clean,
        given,
        (b.non_empty mac (b.mac_non_empty _ token), b.decodes mac),
      )

  -- A signed token of 43 characters without dots is not taken for a remembered session.
  pub signed_token-not_persistent :
      (token : Text)
      → Avoids b'.' token
      → length token ≡ 43
      → has_prefix (signed_token c a token) persistent_token_prefix ≡ false
  unfolding signed_token has_prefix
  signed_token-not_persistent [] clean h = absurd (omega arith)
  signed_token-not_persistent (x ∷ []) clean h = absurd (omega arith)
  signed_token-not_persistent (x ∷ y ∷ []) clean h = absurd (omega arith)
  signed_token-not_persistent (x ∷ y ∷ z ∷ t) clean h = ground arith
