-- ===== src/Http/Account/Laws.antt =====
-- From the login over HTTP to the logout.
use go_webssh.Base.{
  ℕ, ◌<◌, ◌/◌, ◌≡◌, refl, ◌∙◌, ap, sym, inl, inr, true, false, Option, some, ok, arith, Bool-cases,
  Option-cases, Result-cases,
}
use go_webssh.Text.{Text, codes, has_prefix}
use go_webssh.Auth.Primitives.{Crypto, Bytes, IsBase64, IsJson}
use go_webssh.Auth.Login.{HasAead, HasLengths}
use go_webssh.Auth.Store.{Store, SessionInfo, second}
use go_webssh.Auth.{
  Authenticator, Cookie, login, logout, session_from_request, authenticate, persistent_token_prefix,
}
use go_webssh.Auth.Sessions.{login-session_from_request, logout_ends}
use go_webssh.Ws.Origin.{Request, client_ip}
use go_webssh.Http.Account.{
  LoginRequest, decoded, done, signed_in, anonymous, handle_login, handle_logout, handle_session,
  client_address,
}

module _ (c : Crypto) (a : Authenticator) where
  session-signed_in :
      (now : ℕ) (cookie : Option Text) (s : Store) (info : SessionInfo)
      → (session_from_request c a now cookie s).0 ≡ some info
      → (handle_session c a now cookie s).0 ≡ signed_in info.username
  unfolding handle_session
  session-signed_in now cookie s info h = rw (handle_session, h) refl

  -- A login that sets a cookie was one of JSON with the right credentials, and until the cookie expires, to the second,
  -- the session of a request that carries it is the user's.
  pub handle_session-handle_login :
      (now later : ℕ) (random : ℕ → Option Bytes) (content_type : Text) (req : LoginRequest)
      (s after : Store) (cookie : Cookie)
      → IsBase64 c
      → HasAead c a
      → IsJson c
      → HasLengths c a random
      → handle_login c a now random content_type (decoded (some req)) s
        ≡ (done (some cookie), after)
      → later / second < cookie.expires / second
      → (has_prefix content_type (codes "application/json") ≡ true)
        × (authenticate c a req.username req.password ≡ ok tt)
        × ((handle_session c a later (some cookie.value) after).0 ≡ signed_in req.username)
  unfolding handle_login
  handle_session-handle_login now later random content_type req s after cookie base aead json sizes
        h early =
      elim (Bool-cases (has_prefix content_type (codes "application/json"))) [
        | inr other ↦ absurd (ground (arith, h, other))
        | inl plain ↦
            elim (Result-cases
              ((login c a now random req.username req.password req.remember s).0)) [
                | inr (e, fails) ↦ absurd (ground (arith, h, plain, fails))
                | inl (given, sets) ↦
                    let same : given ≡ cookie = ground (arith, h, plain, sets) in
                    let left : (login c a now random req.username req.password req.remember s).1
                        ≡ after =
                      ground (arith, h, plain, sets) in
                    let (accepted, recognises) =
                      login-session_from_request c a now random req.username req.password
                        req.remember s given base aead json sizes sets in
                    let (info, known, user) = recognises later (rw same early) in
                    (
                      plain,
                      accepted,
                      ap (λ x. (handle_session c a later (some x) after).0)
                            (ap (λ k. k.value) (sym same))
                          ∙ ap (λ x. (handle_session c a later (some given.value) x).0) (sym left)
                          ∙ session-signed_in later (some given.value) _ info known
                          ∙ ap signed_in user,
                    )
              ]
      ]

  -- After a logout that is answered well, the session of a request with the same cookie is nobody's, unless it was
  -- one of a remembered session.
  handle_session-handle_logout :
      (now later : ℕ) (value : Text) (s after : Store) (cleared : Option Cookie)
      → has_prefix value persistent_token_prefix ≡ false
      → handle_logout c a now (some value) s ≡ (done cleared, after)
      → (handle_session c a later (some value) after).0 ≡ anonymous
  unfolding handle_logout handle_session
  handle_session-handle_logout now later value s after cleared plain h =
      elim (Option-cases ((session_from_request c a now (some value) s).0)) [
        | inl unknown ↦ absurd (ground (arith, h, unknown))
        | inr (info, known) ↦
            let seen = (session_from_request c a now (some value) s).1 in
            let left : (logout c a (some value) seen).1 ≡ after = ground (arith, h, known) in
            let ends = logout_ends c a later value seen plain in ground (arith, left, ends)
      ]

-- Both packages take the same address for the client's.
client_address-client_ip : (r : Request) → client_address r ≡ client_ip r
unfolding client_address client_ip
client_address-client_ip r = refl
