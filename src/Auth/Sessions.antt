-- ===== src/Auth/Sessions.antt =====
-- From login to logout: what the cookie of a successful login is good for, what a recognised request
-- proves, and what logging out ends.
use go_webssh.Base.{
  ℕ, ◌+◌, ◌*◌, ◌<◌, ◌≡◌, refl, ◌⊎◌, inl, inr, Bool, true, false, Option, none, some, ◌∷◌, ◌++◌, ok,
  err, arith, Bool-cases, Option-cases, Result-cases, is_empty,
}
use go_webssh.Text.{Text, has_prefix}
use go_webssh.Text.Laws.{text_eq_refl}
use go_webssh.Auth.Store.{second, Store, SessionInfo, create, delete, lifetime, add_duration}
use go_webssh.Auth.Store.Laws.{view, get-view, delete-view}
use go_webssh.Auth.Primitives.{Crypto, IsBase64, IsJson, Bytes, PersistentSession}
use go_webssh.Auth.Tokens.{verify_token_iff, IsSignature}
use go_webssh.Auth.Login.{
  authenticate_iff, open_persistent_session-IsSealed, accept_session-fresh, IsSealed, HasLengths,
  HasAead, Recognises, remembered, stored,
}
use go_webssh.Auth.{
  Authenticator, AuthError, Cookie, authenticate, seal_persistent_session, verify_token,
  signed_token, login, logout, session_from_request, persistent_token_prefix, persistent_lifetime,
}

module _ (c : Crypto) (a : Authenticator) where
  Recognises-cast :
      (v v' : Text) (e e' : ℕ) (username : Text) (s s' : Store)
      → v ≡ v'
      → e ≡ e'
      → s ≡ s'
      → Recognises c a v' e' username s'
      → Recognises c a v e username s
  Recognises-cast v v' e e' username s s' p q r h = rw (p, q, r) h

  -- If `Login` sets a cookie, the credentials were right, and until it expires, to the second, every
  -- request that carries it is recognised as the user's, remembered or not. The conditions are the
  -- documented behaviour of Base64, AES-GCM, JSON and the random source.
  pub login-session_from_request :
      (now : ℕ) (random : ℕ → Option Bytes) (username password : Text) (remember : Bool) (s : Store)
      (cookie : Cookie)
      → IsBase64 c
      → HasAead c a
      → IsJson c
      → HasLengths c a random
      → (login c a now random username password remember s).0 ≡ ok cookie
      → (authenticate c a username password ≡ ok tt)
        × Recognises c a cookie.value cookie.expires username
            (login c a now random username password remember s).1
  unfolding login
  login-session_from_request now random username password true s cookie b law json sizes h =
      let expires = now + persistent_lifetime in
      let info : SessionInfo = record { username = username; expires_at = expires } in
      elim (Result-cases (authenticate c a username password)) [
        | inl (u, e) ↦ elim (Result-cases (seal_persistent_session c a random info)) [
          | inl (value, sealed) ↦
              let user = ((authenticate_iff c a username password).0 e).0 in
              (
                e,
                Recognises-cast cookie.value value cookie.expires expires username _ s
                    (ground arith) (ground arith) (ground arith)
                    (remembered c a now random username value expires s b law json sizes user
                      sealed),
              )
          | inr (x, fails) ↦ absurd (ground arith)
        ]
        | inr (x, e) ↦ absurd (ground arith)
      ]
  login-session_from_request now random username password false s cookie b law json sizes h =
      elim (Result-cases (authenticate c a username password)) [
        | inl (u, e) ↦ elim (Option-cases (random 32)) [
          | inl no_bytes ↦ absurd (unfold create in ground arith)
          | inr (bytes, drawn) ↦
              let token = c.encode bytes in
              let expires = add_duration now (lifetime s.ttl (some a.ttl)) in
              (
                e,
                Recognises-cast cookie.value (signed_token c a token) cookie.expires expires
                    username _ (create now (some token) username (some a.ttl) s).1
                    (unfold create in ground arith) (unfold create in ground arith)
                    (unfold create in ground arith)
                    (stored c a now expires bytes token username (some a.ttl) s b
                      (sizes 32 bytes drawn) refl refl),
              )
        ]
        | inr (x, e) ↦ absurd (ground arith)
      ]

  -- A login that fails leaves the store alone.
  login_fails :
      (now : ℕ) (random : ℕ → Option Bytes) (username password : Text) (remember : Bool) (s : Store)
      (e : AuthError)
      → (login c a now random username password remember s).0 ≡ err e
      → (login c a now random username password remember s).1 ≡ s
  unfolding login create
  login_fails now random username password remember s e h = ground arith

  -- A cookie that stands for what is recognised: either it has the mark of a remembered session and carries that
  -- session, sealed, which names the configured user and has not expired, or it is a token with its signature, and
  -- the store knows the token.
  abbrev pub Admits : ℕ → Store → Text → SessionInfo → Type 0
  Admits now s value info =
      ((has_prefix value persistent_token_prefix ≡ true)
        × (session : PersistentSession) × IsSealed c a value session
        × (info.username ≡ a.username)
        × (now < info.expires_at)
        × (info.username ≡ session.username)
        × (info.expires_at ≡ session.expires * second))
      ⊎ ((token : Text) × (sig : Text) × (value ≡ token ++ b'.' ∷ sig)
          × IsSignature c a token sig
          × (view s now token ≡ some info))

  -- What a recognised request proves. With the mark of a remembered session, it carries a session sealed under the
  -- secret, and what is recognised is that session, which names the configured user and has not expired. Any other
  -- carries a token signed under the secret, and the store knows the token.
  pub session_from_request_sound :
      (now : ℕ) (value : Text) (s : Store) (info : SessionInfo)
      → (session_from_request c a now (some value) s).0 ≡ some info
      → Admits now s value info
  unfolding session_from_request
  session_from_request_sound now value s info h = elim (Bool-cases (is_empty value)) [
    | inl empty ↦ absurd (ground arith)
    | inr given ↦ elim (Bool-cases (has_prefix value persistent_token_prefix)) [
      | inl marked ↦
          let (session, sealed, accepts) =
            open_persistent_session-IsSealed c a now value info (ground arith) in
          let (user, fresh, named, until) = accept_session-fresh c a now session info accepts in
          inl (marked, session, sealed, user, fresh, named, until)
      | inr plain ↦ elim (Option-cases (verify_token c a value)) [
        | inl forged ↦ absurd (ground arith)
        | inr (token, verified) ↦
            let (sig, whole, clean, n, signed) = (verify_token_iff c a value token).0 verified in
            inr (
              token,
              sig,
              whole,
              signed,
              ground (arith, (get-view now now token token s (omega arith)).0),
            )
      ]
    ]
  ]

  -- After a logout the token of the request's cookie is not recognised, at any time.
  pub logout_ends :
      (now : ℕ) (value : Text) (s : Store)
      → has_prefix value persistent_token_prefix ≡ false
      → (session_from_request c a now (some value) (logout c a (some value) s).1).0 ≡ none
  unfolding session_from_request logout
  logout_ends now value s plain = elim (Bool-cases (is_empty value)) [
    | inl empty ↦ ground arith
    | inr given ↦ elim (Option-cases (verify_token c a value)) [
      | inl forged ↦ ground arith
      | inr (token, verified) ↦
          let s' = delete token s in
          ground (
            arith,
            plain,
            (get-view now now token token s' (omega arith)).0,
            delete-view now token token s,
            text_eq_refl token,
          )
    ]
  ]
