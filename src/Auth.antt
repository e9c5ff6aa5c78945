-- ===== src/Auth.antt =====
-- internal/auth/auth.go: logins, session tokens and cookies. Instants are nanoseconds since the
-- start of 1970; an operation reads the clock once.
pub mod Store
pub mod Primitives
pub mod Tokens
pub mod Login
pub mod Sessions
pub mod Sample
mod Tests
use mathlib.Core.Option
use go_webssh.Base.{
  ℕ, ◌+◌, ◌-◌, ◌*◌, ◌/◌, Bool, true, false, not, ◌||◌, Option, none, some, [], ◌∷◌, ◌++◌, Result,
  ok, err, ◌>>=◌, ltb, leb, if◌then◌else◌, is_empty, length, take, drop,
}
use go_webssh.Int.{ℤ, pos, negsuc}
use go_webssh.Text.{Text, codes, text_eq, has_prefix, trim_prefix, cut}
use Store.{SessionInfo, second, hour, create, get, delete}
use Primitives.{Crypto, Aead, PersistentSession, Bytes}

-- The fields of `Authenticator`, less the store, which is the state.
pub record Authenticator : Type 0 where
  pub username : Text
  pub password : Text
  pub password_hash : Text
  pub secure_cookie : Bool
  pub ttl : ℤ
  pub session_secret : Text

-- `invalid_credentials` is `ErrInvalidCredentials`; the others come from the platform.
pub data AuthError : Type 0 where
  invalid_credentials no_random no_cipher no_json : AuthError

-- A cookie as it is set: the name, the path, `HttpOnly` and `SameSite` are the same for all.
pub record Cookie : Type 0 where
  pub value : Text
  pub secure : Bool
  pub expires : ℕ
  pub max_age : ℤ

abbrev pub cookie_name : Text
cookie_name = codes "gowebssh_session"

abbrev pub persistent_token_prefix : Text
persistent_token_prefix = codes "p1."

abbrev pub persistent_lifetime : ℕ
persistent_lifetime = 30 * 24 * hour

module _ (c : Crypto) (a : Authenticator) where
  -- `checkPassword`
  unfoldable pub check_password : Text → Bool
  unfolding text_eq
  check_password password =
      if is_empty a.password_hash
      then text_eq password a.password
      else c.hash_matches a.password_hash password

  -- `Authenticate`
  unfoldable pub authenticate : Text → Text → Result AuthError (Unit {0})
  unfolding check_password text_eq
  authenticate username password =
      if text_eq username a.username
      then if check_password password then ok tt else err invalid_credentials
      else err invalid_credentials

  -- `signedToken`
  unfoldable pub signed_token : Text → Text
  signed_token token = token ++ b'.' ∷ c.encode (c.mac a.session_secret token)

  -- What `verifyToken` does with the two sides of the first dot.
  unfoldable pub verify_parts : Text → Text → Option Text
  unfolding text_eq
  verify_parts token encoded_sig =
      if is_empty token || is_empty encoded_sig then none else elim (c.decode encoded_sig) [
        | none ↦ none
        | some sig ↦ if text_eq sig (c.mac a.session_secret token) then some token else none
      ]

  -- `verifyToken`
  unfoldable pub verify_token : Text → Option Text
  unfolding verify_parts cut
  verify_token value = elim (cut b'.' value) [
    | none ↦ none
    | some (token, encoded_sig) ↦ verify_parts token encoded_sig
  ]

  -- `persistentAEAD`
  abbrev pub persistent_aead : Option Aead
  persistent_aead = c.aead (codes "go-webssh/persistent-session/" ++ a.session_secret)

  -- What `sealPersistentSession` does once it has the cipher.
  unfoldable pub seal_with : (ℕ → Option Bytes) → SessionInfo → Aead → Result AuthError Text
  seal_with random info aead =
      elim (c.marshal (record { username = info.username; expires = info.expires_at / second })) [
        | none ↦ err no_json
        | some payload ↦ elim (random aead.nonce_size) [
          | none ↦ err no_random
          | some nonce ↦
              ok
                (persistent_token_prefix ++ c.encode (nonce ++ aead.seal nonce payload cookie_name))
        ]
      ]

  -- `sealPersistentSession`
  unfoldable pub seal_persistent_session : (ℕ → Option Bytes) → SessionInfo → Result AuthError Text
  unfolding seal_with
  seal_persistent_session random info = elim persistent_aead [
    | none ↦ err no_cipher
    | some aead ↦ seal_with random info aead
  ]

  -- The session in an opened cookie, if it is the configured user's and has not expired.
  unfoldable pub accept_session : ℕ → PersistentSession → Option SessionInfo
  unfolding text_eq
  accept_session now session =
      if not (text_eq session.username a.username) || leb session.expires (now / second)
      then none
      else some (record { username = session.username; expires_at = session.expires * second })

  -- What `openPersistentSession` does with the sealed bytes.
  unfoldable pub open_with : ℕ → Aead → Bytes → Option SessionInfo
  unfolding accept_session
  open_with now aead sealed =
      if ltb (length sealed) aead.nonce_size
      then none
      else elim (aead.unseal (take aead.nonce_size sealed) (drop aead.nonce_size sealed)
          cookie_name) [
            | none ↦ none
            | some payload ↦ elim (c.unmarshal payload) [
              | none ↦ none
              | some session ↦ accept_session now session
            ]
          ]

  -- `openPersistentSession`
  unfoldable pub open_persistent_session : ℕ → Text → Option SessionInfo
  unfolding open_with trim_prefix
  open_persistent_session now value = elim persistent_aead [
    | none ↦ none
    | some aead ↦ elim (c.decode (trim_prefix value persistent_token_prefix)) [
      | none ↦ none
      | some sealed ↦ open_with now aead sealed
    ]
  ]

  abbrev pub set_cookie : ℕ → Text → ℕ → Cookie
  set_cookie now value expires = record {
    value = value;
    secure = a.secure_cookie;
    expires = expires;
    max_age = pos ((expires - now) / second);
  }

  -- The cookie of a session in the store.
  abbrev pub store_cookie : ℕ → Option (Text × ℕ) → Result AuthError Cookie
  store_cookie now none = err no_random
  store_cookie now (some (token, expires)) = ok (set_cookie now (signed_token token) expires)

  -- `Login`: the cookie that is set, or the error, and the store behind it.
  unfoldable pub login :
      ℕ
      → (ℕ → Option Bytes)
      → Text
      → Text
      → Bool
      → Store.Store
      → Result AuthError Cookie × Store.Store
  unfolding authenticate seal_persistent_session create signed_token
  login now random username password remember s = elim (authenticate username password) [
    | err e ↦ (err e, s)
    | ok _ ↦
        if remember
        then (let expires = now + persistent_lifetime in
            (
              seal_persistent_session random (record { username = username; expires_at = expires })
                  >>= λ value. ok (set_cookie now value expires),
              s,
            ))
        else (let made = create now (Option.map c.encode (random 32)) username (some a.ttl) s in
            (store_cookie now made.0, made.1))
  ]

  -- `Logout` on the request's cookie: the cookie that clears it, and the store behind it.
  unfoldable pub logout : Option Text → Store.Store → Cookie × Store.Store
  unfolding verify_token delete
  logout cookie s = (
    record { value = []; secure = a.secure_cookie; expires = 0; max_age = negsuc 0 },
    elim cookie [
      | none ↦ s
      | some value ↦ elim (verify_token value) [ none ↦ s | some token ↦ delete token s ]
    ],
  )

  -- `SessionFromRequest` on the request's cookie.
  unfoldable pub session_from_request :
      ℕ → Option Text → Store.Store → Option SessionInfo × Store.Store
  unfolding open_persistent_session verify_token get has_prefix
  session_from_request now none s = (none, s)
  session_from_request now (some value) s =
      if is_empty value
      then (none, s)
      else if has_prefix value persistent_token_prefix
      then (open_persistent_session now value, s)
      else elim (verify_token value) [ none ↦ (none, s) | some token ↦ get now token s ]
