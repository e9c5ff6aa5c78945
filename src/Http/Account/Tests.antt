-- ===== src/Http/Account/Tests.antt =====
-- A login over HTTP and what it is good for, and the theorem there.
use go_webssh.Base.{◌≡◌, ◌+◌, refl, true, false, some, ok, arith}
use go_webssh.Int.{pos}
use go_webssh.Text.{codes, has_prefix}
use go_webssh.Dict.{lookup, insert}
use go_webssh.Auth.Store.{Store, new_store}
use go_webssh.Auth.{authenticate, login}
use go_webssh.Auth.Sample.{
  sample_crypto, sample-IsBase64, sample-HasAead, sample-IsJson, sample_auth, sample_random,
  sample_random-HasLengths, start, sample_cookie,
}
use go_webssh.Http.Account.{
  LoginRequest, decoded, done, refused, signed_in, not_json, handle_login, handle_session,
}
use go_webssh.Http.Account.Laws.{handle_session-handle_login}

abbrev request : LoginRequest
request = record { username = codes "admin"; password = codes "secret"; remember = false }

abbrev behind : Store
behind =
    (login sample_crypto sample_auth start sample_random (codes "admin") (codes "secret") false
      (new_store (pos 0))).1

login_runs :
    handle_login sample_crypto sample_auth start sample_random
      (codes "application/json")
      (decoded (some request))
      (new_store (pos 0))
    ≡ (done (some sample_cookie), behind)
unfolding handle_login login has_prefix new_store insert lookup
login_runs = refl

handle_session-handle_login_example :
    (has_prefix (codes "application/json") (codes "application/json") ≡ true)
    × (authenticate sample_crypto sample_auth (codes "admin") (codes "secret") ≡ ok tt)
    × ((handle_session sample_crypto sample_auth (start + 5) (some sample_cookie.value) behind).0
        ≡ signed_in (codes "admin"))
handle_session-handle_login_example =
    handle_session-handle_login sample_crypto sample_auth start (start + 5) sample_random
      (codes "application/json") request (new_store (pos 0)) behind sample_cookie sample-IsBase64
      (sample-HasAead sample_auth) sample-IsJson (sample_random-HasLengths sample_auth) login_runs
      (ground arith)

form_runs :
    handle_login sample_crypto sample_auth start sample_random
      (codes "text/plain")
      (decoded (some request))
      (new_store (pos 0))
    ≡ (refused not_json, new_store (pos 0))
unfolding handle_login has_prefix
form_runs = refl
