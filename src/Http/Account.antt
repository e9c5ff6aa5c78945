-- ===== src/Http/Account.antt =====
-- `handleLogin`, `handleLogout`, `handleSession` and `clientIP` of internal/httpserver/server.go, on decoded requests.
pub mod Laws
mod Tests
use go_webssh.Base.{
  ℕ, Bool, true, false, not, Option, none, some, Result, ok, err, if◌then◌else◌, is_empty,
}
use go_webssh.Text.{Text, codes, has_prefix, before, trim_space}
use go_webssh.Code.{Code, ApiError}
use go_webssh.Auth.Primitives.{Crypto, Bytes}
use go_webssh.Auth.Store.{Store, SessionInfo}
use go_webssh.Auth.{Authenticator, Cookie, login, logout, session_from_request}
use go_webssh.Ws.Origin.{Request}
use go_webssh.Http.{Failure, failure, auth_required}

-- The content of a login.
pub record LoginRequest : Type 0 where
  pub username : Text
  pub password : Text
  pub remember : Bool

-- The body of a login: it cannot be read, or it decodes or not.
pub data Body : Type 0 where
  unreadable : Body
  decoded : Option LoginRequest → Body

-- The answer, and the cookie that it sets, if any.
pub data Answer : Type 0 where
  refused : Failure → Answer
  done : Option Cookie → Answer
  signed_in : Text → Answer
  anonymous : Answer

abbrev pub not_json : Failure
not_json = failure 400 Code.bad_request "Content-Type must be application/json"

module _ (c : Crypto) (a : Authenticator) (now : ℕ) where
  -- `handleLogin`
  unfoldable pub handle_login : (ℕ → Option Bytes) → Text → Body → Store → Answer × Store
  unfolding has_prefix login
  handle_login random content_type body s =
      if not (has_prefix content_type (codes "application/json"))
      then (refused not_json, s)
      else elim body [
        | unreadable ↦ (refused (failure 400 Code.bad_request "invalid request body"), s)
        | decoded none ↦ (refused (failure 400 Code.bad_request "invalid JSON"), s)
        | decoded (some req) ↦
            let (result, after) = login c a now random req.username req.password req.remember s in
            (
              elim result [
                | ok cookie ↦ done (some cookie)
                | err _ ↦ refused (failure 401 Code.auth_failed "invalid username or password")
              ],
              after,
            )
      ]

  -- `handleLogout`
  unfoldable pub handle_logout : Option Text → Store → Answer × Store
  unfolding session_from_request logout
  handle_logout cookie s =
      let (info, seen) = session_from_request c a now cookie s in
      let (cleared, after) = logout c a cookie seen in
      elim info [ none ↦ (refused auth_required, seen) | some known ↦ (done (some cleared), after) ]

  -- `handleSession`
  unfoldable pub handle_session : Option Text → Store → Answer × Store
  unfolding session_from_request
  handle_session cookie s =
      let (info, seen) = session_from_request c a now cookie s in
      (elim info [ none ↦ anonymous | some known ↦ signed_in known.username ], seen)

-- `clientIP`
unfoldable pub client_address : Request → Text
unfolding before trim_space
client_address r =
    if is_empty r.forwarded_for
    then (elim r.remote_host [ none ↦ r.remote_addr | some host ↦ host ])
    else trim_space (before b',' r.forwarded_for)
