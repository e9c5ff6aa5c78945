-- ===== src/Http/Tests.antt =====
-- Requests on a small platform, and the theorems there.
use go_webssh.Base.{◌≡◌, refl, sym, ◌∙◌, ◌+◌, arith, true, false, some, List, [], ◌∷◌, ok}
use go_webssh.Int.{pos}
use go_webssh.Text.{Text, codes, trim_space, byte_len}
use go_webssh.Dict.{lookup, insert}
use go_webssh.Code.{Code}
use go_webssh.Auth.Store.{Store, SessionInfo, hour}
use go_webssh.Auth.{login, session_from_request}
use go_webssh.Auth.Sessions.{Admits}
use go_webssh.Auth.Sample.{sample_crypto, sample_auth, zeros, sample_token, start}
use go_webssh.Vault.{
  Credential, Summary, Database, get, put_for_user, completed, encrypt, encrypt_v2, open_record,
  write, summary_of,
}
use go_webssh.Vault.Sample.{
  sample_library, sample-IsJson, sample_ciphers, sample_random, sample_lengths, sample_credential,
  saved_credential, empty_database, put_text, encoded,
}
use go_webssh.Http.{
  Server, failed, saved, Reply, failure, auth_required, check_credential, get_route, handle,
  handle_put, handle_get, credential_get, credential_session,
}
use go_webssh.Http.Laws.{handle-Admits, handle_put-IsStored, IsStored}

-- A sort that has nothing to do.
abbrev as_is : List Summary → List Summary
as_is xs = xs

abbrev logged_in : Store
logged_in = record {
  sessions =
      (
        sample_crypto.encode (zeros 32),
        record { username = codes "admin"; expires_at = start + hour },
      )
      ∷ [];
  ttl = pos hour;
}

abbrev sample_server : Server
sample_server = record { sessions = logged_in; vault = some empty_database }

abbrev sample_handled : Reply × Server
sample_handled =
    handle sample_library sample_random [] [] start (codes "i") as_is sample_crypto sample_auth
      (some sample_token) (get_route (codes "i")) sample_server

not_found_runs : sample_handled.0 ≡ failed (failure 404 Code.not_found "credential not found")
unfolding handle credential_get credential_session session_from_request login lookup handle_get get
    open_record
not_found_runs = refl

handled :
    ¬ ((sample_handled.0 ≡ failed auth_required) × (sample_handled.1.vault ≡ some empty_database))
handled (denied, same) = absurd (ground (arith, sym not_found_runs ∙ denied))

handle-Admits_example :
    (value : Text) × (info : SessionInfo) × (some sample_token ≡ some value)
    × Admits sample_crypto sample_auth start logged_in value info
handle-Admits_example =
    handle-Admits sample_library sample_random [] [] start (codes "i") as_is sample_crypto
      sample_auth (some sample_token) (get_route (codes "i")) sample_server handled

abbrev sample_info : SessionInfo
sample_info = record { username = codes "o"; expires_at = 9 }

abbrev sample_saved : Summary
sample_saved = record {
  id = codes "i";
  owner = codes "o";
  name = codes "n";
  host = codes "h";
  port = pos 22;
  username = codes "u";
  term = codes "xterm-256color";
  use_herdr = true;
  has_private_key = true;
  has_passphrase = false;
  updated_at = some 5;
}

abbrev saved_database : Database
saved_database = record {
  credentials = (codes "i", 71 ∷ 87 ∷ 83 ∷ 50 ∷ 0 ∷ 0 ∷ encoded saved_credential) ∷ [];
  summaries = (codes "i", codes "i") ∷ [];
}

put_runs :
    handle_put sample_library sample_random [] [] 5
      (codes "i")
      sample_info
      99
      (some sample_credential)
      empty_database
    ≡ (saved sample_saved, saved_database)
unfolding handle_put check_credential put_for_user get open_record completed encrypt_v2 encrypt
    write summary_of lookup insert put_text trim_space byte_len
put_runs = refl

handle_put-IsStored_example :
    (c : Credential) × (get sample_library [] (codes "i") saved_database ≡ ok c) × IsStored c
handle_put-IsStored_example =
    handle_put-IsStored sample_library sample_random sample_ciphers sample_lengths sample-IsJson []
      [] 5 (codes "i") sample_info 99 (some sample_credential) empty_database saved_database
      sample_saved put_runs
