-- ===== src/Auth/Login.antt =====
-- Logging in and being recognised: the cookie that `Login` sets stands for the user until it
-- expires, or until it is logged out.
use go_webssh.Base.{
  ℕ, ◌*◌, ◌/◌, ◌<◌, ◌≤◌, ◌≡◌, refl, ◌≢◌, ◌↔◌, ◌⊎◌, inl, inr, true, false, Option, some, [], ◌∷◌,
  ◌++◌, ok, arith, length, is_empty, Option-cases, take, drop, take-append, drop-append,
  length-append, ap,
}
use go_webssh.Int.{ℤ}
use go_webssh.Text.{Text, has_prefix, trim_prefix}
use go_webssh.Text.Laws.{Avoids, text_eq_refl, text_eq_iff, has_prefix-append, trim_prefix-append}
use go_webssh.Auth.Store.{Store, SessionInfo, second, add_duration, lifetime, create}
use go_webssh.Auth.Store.Laws.{get-view, create-view}
use go_webssh.Auth.Primitives.{Crypto, Aead, Bytes, PersistentSession, IsBase64, IsAead, IsJson}
use go_webssh.Auth.Tokens.{verify_token-signed_token, signed_token-not_persistent}
use go_webssh.Auth.{
  Authenticator, authenticate, check_password, signed_token, persistent_aead, seal_with,
  seal_persistent_session, accept_session, open_with, open_persistent_session, session_from_request,
  persistent_token_prefix, cookie_name,
}

module _ (c : Crypto) (a : Authenticator) where
  -- A login is accepted exactly when the name is the configured one and the password passes the
  -- hash, if one is configured, or is the configured password.
  pub authenticate_iff :
      (username password : Text)
      → (authenticate c a username password ≡ ok tt) ↔ (
          (username ≡ a.username)
          × (((is_empty a.password_hash ≡ false) × (c.hash_matches a.password_hash password ≡ true))
              ⊎ ((is_empty a.password_hash ≡ true) × (password ≡ a.password))))
  unfolding authenticate check_password
  authenticate_iff username password = (
    λ h. grind (arith, text_eq_iff username a.username, text_eq_iff password a.password),
    λ h. grind (arith, text_eq_iff username a.username, text_eq_iff password a.password),
  )

  -- A remembered session that is opened is the configured user's, and has not expired.
  pub accept_session-fresh :
      (now : ℕ) (session : PersistentSession) (info : SessionInfo)
      → accept_session c a now session ≡ some info
      → (info.username ≡ a.username)
        × (now < info.expires_at)
        × (info.username ≡ session.username)
        × (info.expires_at ≡ session.expires * second)
  unfolding accept_session
  accept_session-fresh now session info h = ground (arith, text_eq_iff session.username a.username)

  -- What is carried, without its mark, decodes to a nonce and a text that the cipher opens under the name of the
  -- cookie, to a session.
  abbrev pub IsSealed : Text → PersistentSession → Type 0
  IsSealed value session =
      (aead : Aead) × (sealed : Bytes) × (payload : Bytes) × (persistent_aead c a ≡ some aead)
      × (c.decode (trim_prefix value persistent_token_prefix) ≡ some sealed)
      × (aead.nonce_size ≤ length sealed)
      × (aead.unseal (take aead.nonce_size sealed) (drop aead.nonce_size sealed) cookie_name
          ≡ some payload)
      × (c.unmarshal payload ≡ some session)

  open_with-accepts :
      (now : ℕ) (aead : Aead) (sealed : Bytes) (info : SessionInfo)
      → open_with c a now aead sealed ≡ some info
      → (session : PersistentSession) × (payload : Bytes) × (aead.nonce_size ≤ length sealed)
        × (aead.unseal (take aead.nonce_size sealed) (drop aead.nonce_size sealed) cookie_name
            ≡ some payload)
        × (c.unmarshal payload ≡ some session)
        × (accept_session c a now session ≡ some info)
  unfolding open_with
  open_with-accepts now aead sealed info h =
      elim (Option-cases
        (aead.unseal (take aead.nonce_size sealed) (drop aead.nonce_size sealed) cookie_name)) [
          | inl fails ↦ absurd (ground arith)
          | inr (payload, e) ↦ elim (Option-cases (c.unmarshal payload)) [
            | inl broken ↦ absurd (ground arith)
            | inr (session, f) ↦ (session, payload, ground arith, e, f, ground arith)
          ]
        ]

  pub open_persistent_session-IsSealed :
      (now : ℕ) (value : Text) (info : SessionInfo)
      → open_persistent_session c a now value ≡ some info
      → (session : PersistentSession) × IsSealed value session
        × (accept_session c a now session ≡ some info)
  unfolding open_persistent_session
  open_persistent_session-IsSealed now value info h = elim (Option-cases (persistent_aead c a)) [
    | inl fails ↦ absurd (ground arith)
    | inr (aead, e) ↦ elim (Option-cases (c.decode (trim_prefix value persistent_token_prefix))) [
      | inl broken ↦ absurd (ground arith)
      | inr (sealed, f) ↦
          let (session, payload, long, opens, reads, accepts) =
            open_with-accepts now aead sealed info (ground arith) in
          (session, (aead, sealed, payload, e, f, long, opens, reads), accepts)
    ]
  ]

  -- The random source returns as many bytes as it is asked for.
  abbrev pub HasLengths : (ℕ → Option Bytes) → Type 0
  HasLengths random = (n : ℕ) (b : Bytes) → random n ≡ some b → length b ≡ n

  -- The cipher is as documented, whatever the secret.
  abbrev pub HasAead : Type 0
  HasAead = (aead : Aead) → persistent_aead c a ≡ some aead → IsAead aead

  open_with-seal :
      (now : ℕ) (random : ℕ → Option Bytes) (info : SessionInfo) (aead : Aead) (value : Text)
      → IsBase64 c
      → IsAead aead
      → IsJson c
      → HasLengths random
      → seal_with c a random info aead ≡ ok value
      → (sealed : Bytes) × (value ≡ persistent_token_prefix ++ c.encode sealed)
        × (open_with c a now aead sealed
            ≡ accept_session c a now
                (record { username = info.username; expires = info.expires_at / second }))
  unfolding seal_with open_with
  open_with-seal now random info aead value b law json sizes h =
      let session : PersistentSession = record {
        username = info.username;
        expires = info.expires_at / second;
      } in
      elim (Option-cases (c.marshal session)) [
        | inl fails ↦ absurd (ground arith)
        | inr (payload, written) ↦ elim (Option-cases (random aead.nonce_size)) [
          | inl no_bytes ↦ absurd (ground arith)
          | inr (nonce, drawn) ↦
              let n = aead.nonce_size in
              let text = aead.seal nonce payload cookie_name in
              let size = sizes n nonce drawn in
              (
                nonce ++ text,
                ground arith,
                ground (
                  arith,
                  length-append nonce text,
                  take-append n nonce text size,
                  drop-append n nonce text size,
                  law.opens nonce payload cookie_name,
                  json.reads session payload written,
                ),
              )
        ]
      ]

  open_persistent_session-seal :
      (now : ℕ) (random : ℕ → Option Bytes) (info : SessionInfo) (value : Text)
      → IsBase64 c
      → HasAead
      → IsJson c
      → HasLengths random
      → seal_persistent_session c a random info ≡ ok value
      → (has_prefix value persistent_token_prefix ≡ true)
        × (is_empty value ≡ false)
        × (open_persistent_session c a now value
            ≡ accept_session c a now
                (record { username = info.username; expires = info.expires_at / second }))
  unfolding seal_persistent_session open_persistent_session
  open_persistent_session-seal now random info value b law json sizes h =
      elim (Option-cases (persistent_aead c a)) [
        | inl fails ↦ absurd (ground arith)
        | inr (aead, e) ↦
            let (sealed, whole, opened) =
              open_with-seal now random info aead value b (law aead e) json sizes (ground arith) in
            (
              rw whole (has_prefix-append persistent_token_prefix (c.encode sealed)),
              rw whole refl,
              ground (
                arith,
                whole,
                trim_prefix-append persistent_token_prefix (c.encode sealed),
                b.decodes sealed,
                opened,
              ),
            )
      ]

  signed_token-non_empty : (token : Text) → is_empty (signed_token c a token) ≡ false
  unfolding signed_token
  signed_token-non_empty [] = refl
  signed_token-non_empty (x ∷ token) = refl

  -- What the cookie's value is good for: until the expiry, to the second, it stands for the user.
  abbrev pub Recognises : Text → ℕ → Text → Store → Type 0
  Recognises value expires username s =
      (later : ℕ)
      → later / second < expires / second
      → (info : SessionInfo) × ((session_from_request c a later (some value) s).0 ≡ some info)
        × (info.username ≡ username)

  pub remembered :
      (now : ℕ) (random : ℕ → Option Bytes) (username value : Text) (expires : ℕ) (s : Store)
      → IsBase64 c
      → HasAead
      → IsJson c
      → HasLengths random
      → username ≡ a.username
      → seal_persistent_session c a random (record { username = username; expires_at = expires })
        ≡ ok value
      → Recognises value expires username s
  unfolding session_from_request accept_session
  remembered now random username value expires s b law json sizes user h later le =
      let (marked, given, opened) =
        open_persistent_session-seal later random
          (record { username = username; expires_at = expires }) value b law json sizes h in
      (
        record { username = username; expires_at = expires / second * second },
        ground (arith, marked, given, opened, text_eq_iff username a.username),
        refl,
      )

  pub stored :
      (now expires : ℕ) (bytes : Bytes) (token username : Text) (ttl : Option ℤ) (s : Store)
      → IsBase64 c
      → length bytes ≡ 32
      → token ≡ c.encode bytes
      → expires ≡ add_duration now (lifetime s.ttl ttl)
      → Recognises
          (signed_token c a token)
          expires
          username
          (create now (some token) username ttl s).1
  unfolding session_from_request
  stored now expires bytes token username ttl s b size e lasts later le =
      let clean : Avoids b'.' token = rw e (b.no_dot bytes) in
      let long : length token ≡ 43 = rw e (b.of_token bytes size) in
      let given : token ≢ [] = λ z. absurd (omega (arith, long, ap (length {A = ℕ}) z)) in
      let s' = (create now (some token) username ttl s).1 in
      (
        record { username = username; expires_at = expires },
        ground (
          arith,
          signed_token-non_empty token,
          signed_token-not_persistent c a token clean long,
          verify_token-signed_token c a token b clean given,
          (get-view later later token token s' (omega arith)).0,
          create-view now later token token username ttl s,
          text_eq_refl token,
        ),
        refl,
      )
