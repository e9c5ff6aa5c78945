-- ===== src/Auth/Tests.antt =====
-- Logins on a small platform, and the theorems there.
use go_webssh.Base.{
  ℕ, ◌+◌, ◌*◌, ◌<◌, ◌≡◌, refl, ◌⊎◌, true, false, none, some, List, [], ◌∷◌, ◌++◌, ok, err, arith,
}
use go_webssh.Int.{pos}
use go_webssh.Text.{Text, codes, has_prefix}
use go_webssh.Dict.{lookup, insert, erase}
use go_webssh.Auth.Store.{Store, SessionInfo, new_store, hour, second}
use go_webssh.Auth.Store.Laws.{view}
use go_webssh.Auth.Store.Trace.{Event, run, answers, run-new_store}
use go_webssh.Auth.Login.{IsSealed}
use go_webssh.Auth.Primitives.{PersistentSession}
use go_webssh.Auth.Tokens.{IsSignature}
use go_webssh.Auth.Sessions.{session_from_request_sound, logout_ends}
use go_webssh.Auth.{
  AuthError, login, logout, session_from_request, signed_token, persistent_token_prefix,
}
use go_webssh.Auth.Sample.{
  sample_crypto, sample_auth, zeros, sample_random, sample_token, start, sample_cookie,
}

runs : Unit {0}
unfolding login session_from_request logout run lookup insert erase new_store
runs = tt

login_sets :
    (login sample_crypto sample_auth start sample_random
      (codes "admin")
      (codes "secret")
      false
      (new_store (pos 0))).0
    ≡ ok sample_cookie
unfolding runs
login_sets = refl

wrong_password :
    (login sample_crypto sample_auth start sample_random
      (codes "admin")
      (codes "Secret")
      true
      (new_store (pos 0))).0
    ≡ err AuthError.invalid_credentials
unfolding runs
wrong_password = refl

abbrev logged_in : Store
logged_in = record {
  sessions =
      (
        sample_crypto.encode (zeros 32),
        record { username = codes "admin"; expires_at = start + hour },
      )
      ∷ [];
  ttl = pos hour;
}

abbrev sample_info : SessionInfo
sample_info = record { username = codes "admin"; expires_at = start + hour }

recognised :
    (session_from_request sample_crypto sample_auth start (some sample_token) logged_in).0
    ≡ some sample_info
unfolding runs
recognised = refl

session_from_request_sound_example :
    ((has_prefix sample_token persistent_token_prefix ≡ true)
      × (session : PersistentSession) × IsSealed sample_crypto sample_auth sample_token session
      × (codes "admin" ≡ codes "admin")
      × (start < start + hour)
      × (codes "admin" ≡ session.username)
      × (start + hour ≡ session.expires * second))
    ⊎ ((token : Text) × (sig : Text) × (sample_token ≡ token ++ b'.' ∷ sig)
        × IsSignature sample_crypto sample_auth token sig
        × (view logged_in start token ≡ some sample_info))
session_from_request_sound_example =
    session_from_request_sound sample_crypto sample_auth start sample_token logged_in sample_info
      recognised

logout_ends_example :
    (session_from_request sample_crypto sample_auth start
      (some sample_token)
      (logout sample_crypto sample_auth (some sample_token) logged_in).1).0
    ≡ none
logout_ends_example =
    logout_ends sample_crypto sample_auth start sample_token logged_in
      (unfold runs signed_token has_prefix in refl)

abbrev sample_trace : List (ℕ × Event)
sample_trace =
    (5, Event.login (codes "t") (codes "admin") (some (pos 10)))
    ∷ (9, Event.ask (codes "t"))
    ∷ (15, Event.sweep)
    ∷ (15, Event.ask (codes "t"))
    ∷ (16, Event.ask (codes "t"))
    ∷ (17, Event.sweep)
    ∷ []

run-sample_trace :
    run sample_trace (new_store (pos 7))
    ≡ none
      ∷ some (record { username = codes "admin"; expires_at = 15 })
      ∷ none
      ∷ some (record { username = codes "admin"; expires_at = 15 })
      ∷ none
      ∷ none
      ∷ []
unfolding runs
run-sample_trace = refl

run-new_store_example :
    run sample_trace (new_store (pos 7))
    ≡ answers (new_store (pos 7)).ttl sample_trace (λ token. none)
run-new_store_example = run-new_store (pos 7) sample_trace (omega arith)
