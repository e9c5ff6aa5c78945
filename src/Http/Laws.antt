-- ===== src/Http/Laws.antt =====
-- The guard of the credential handlers, and what they store.
use go_webssh.Base.{
  ℕ, ◌≤◌, ◌≡◌, refl, ◌⊎◌, inl, inr, false, Option, List, none, some, ok, arith, is_empty,
  Result-cases, Option-cases,
}
use go_webssh.Int.{pos, InRange, eq_of_parts}
use go_webssh.Text.{Text, byte_len}
use go_webssh.Auth.Primitives.{Crypto, Bytes}
use go_webssh.Auth.Store.{Store, SessionInfo}
use go_webssh.Auth.Sessions.{Admits, session_from_request_sound}
use go_webssh.Auth.{Authenticator, session_from_request}
use go_webssh.Vault.{
  Library, Credential, Summary, Database, IsJson, HasAead, HasLengths, get, put_for_user, completed,
  summary_of,
}
use go_webssh.Vault.Records.{get-put_for_user, put_for_user-completes}
use go_webssh.Http.{
  Server, failed, saved, auth_required, credential_session, check_credential, Route, list_route,
  get_route, delete_route, put_route, migrate_route, handle_put, handle,
}

Admits-cookie :
    (crypto : Crypto) (auth : Authenticator) (now : ℕ) (cookie : Option Text) (s : Store)
    (info : SessionInfo)
    → (session_from_request crypto auth now cookie s).0 ≡ some info
    → (value : Text) × (found : SessionInfo) × (cookie ≡ some value)
      × Admits crypto auth now s value found
Admits-cookie crypto auth now none s info h =
    absurd (unfold session_from_request in ground (arith, h))
Admits-cookie crypto auth now (some value) s info h =
    (value, info, refl, session_from_request_sound crypto auth now value s info h)

module _ (lib : Library) (random : ℕ → Option Bytes) (salt key : Bytes) (now : ℕ) (fresh : Text)
    (by_name : List Summary → List Summary) where
  module _ (crypto : Crypto) (auth : Authenticator) (cookie : Option Text) where
    -- Without a recognised session, the answer is 401 and the vault stays.
    handle-unauthenticated :
        (route : Route) (server : Server)
        → (session_from_request crypto auth now cookie server.sessions).0 ≡ none
        → let (reply, after) =
            handle lib random salt key now fresh by_name crypto auth cookie route server in
          (reply ≡ failed auth_required) × (after.vault ≡ server.vault)
    unfolding handle credential_session
    handle-unauthenticated list_route server h = rw (handle, h) (refl, refl)
    handle-unauthenticated (get_route id) server h = rw (handle, h) (refl, refl)
    handle-unauthenticated (delete_route id) server h = rw (handle, h) (refl, refl)
    handle-unauthenticated (put_route size decoded) server h = rw (handle, h) (refl, refl)
    handle-unauthenticated (migrate_route size password) server h = rw (handle, h) (refl, refl)

    -- On each of the routes that list, read, save, delete or migrate credentials, a request that changes the vault or
    -- is answered by anything but 401 carries a cookie with a session that is sealed or signed under the secret and
    -- is alive.
    pub handle-Admits :
        (route : Route) (server : Server)
        → (let (reply, after) =
              handle lib random salt key now fresh by_name crypto auth cookie route server in
            ¬ ((reply ≡ failed auth_required) × (after.vault ≡ server.vault)))
        → (value : Text) × (info : SessionInfo) × (cookie ≡ some value)
          × Admits crypto auth now server.sessions value info
    handle-Admits route server h =
        elim (Option-cases (session_from_request crypto auth now cookie server.sessions).0) [
          | inl unknown ↦ absurd (h (handle-unauthenticated route server unknown))
          | inr (info, known) ↦ Admits-cookie crypto auth now cookie server.sessions info known
        ]

-- A credential as the handler stores it.
pub record IsStored (c : Credential) : Type 0 where
  pub name : is_empty c.name ≡ false
  pub host : is_empty c.host ≡ false
  pub username : is_empty c.username ≡ false
  pub private_key : (is_empty c.private_key ≡ false) × (byte_len c.private_key ≤ 131072)
  pub passphrase : byte_len c.passphrase ≤ 8192
  pub port : InRange 1 65535 c.port
  pub term : is_empty c.term ≡ false

check_credential_sound :
    (size : ℕ) (decoded : Option Credential) (item : Credential)
    → check_credential size decoded ≡ ok item
    → (is_empty item.name ≡ false)
      × (is_empty item.host ≡ false)
      × (is_empty item.username ≡ false)
      × (is_empty item.private_key ≡ false)
      × (byte_len item.private_key ≤ 131072)
      × (byte_len item.passphrase ≤ 8192)
      × ((item.port ≡ pos 0) ⊎ InRange 1 65535 item.port)
unfolding check_credential
check_credential_sound size none item h = absurd (ground arith)
check_credential_sound size (some raw) item h = ground (arith, eq_of_parts raw.port (pos 0))

completed-IsStored :
    (existing : Option Credential) (size : ℕ) (decoded : Option Credential) (item : Credential)
    (now : ℕ) (fresh : Text)
    → check_credential size decoded ≡ ok item
    → IsStored (completed now fresh existing item)
unfolding completed
completed-IsStored existing size decoded item now fresh h =
    let (name, host, username, given, key_bound, passphrase, port) =
      check_credential_sound size decoded item h in
    record {
      name = name;
      host = host;
      username = username;
      private_key = (given, key_bound);
      passphrase = passphrase;
      port = ground (arith, port);
      term = ground arith;
    }

module _ (lib : Library) (random : ℕ → Option Bytes) (ciphers : HasAead lib)
    (lengths : HasLengths random) (json : IsJson lib) where
  -- Where the handler answers that a credential is saved, the credential that is then read under the
  -- id of the answer has a name, a host, a user and a key that are not empty, a port between 1 and
  -- 65535, a terminal, and a key and a passphrase within their bounds.
  pub handle_put-IsStored :
      (salt key : Bytes) (now : ℕ) (fresh : Text) (info : SessionInfo) (size : ℕ)
      (decoded : Option Credential) (db after : Database) (s : Summary)
      → handle_put lib random salt key now fresh info size decoded db ≡ (saved s, after)
      → (c : Credential) × (get lib key s.id after ≡ ok c) × IsStored c
  unfolding handle_put summary_of
  handle_put-IsStored salt key now fresh info size decoded db after s h =
      elim (Result-cases (check_credential size decoded)) [
        | inr (e, fails) ↦ absurd (ground (arith, h, fails))
        | inl (item, checked) ↦
            elim (Result-cases (put_for_user lib now random fresh key info.username item db).0) [
              | inr (e, fails) ↦ absurd (ground (arith, h, checked, fails))
              | inl (out, puts) ↦
                  let stored : put_for_user lib now random fresh key info.username item db
                      ≡ (ok out, after) =
                    ground (arith, h, checked, puts) in
                  let (existing, same) =
                    put_for_user-completes lib random now fresh key info.username item out db after
                      stored in
                  let (reads, others) =
                    get-put_for_user lib random ciphers lengths json now fresh key info.username
                      item out db after stored in
                  let id_of : s.id ≡ out.id = ground (arith, h, checked, puts) in
                  (
                    out,
                    rw id_of reads,
                    rw same (completed-IsStored existing size decoded item now fresh checked),
                  )
            ]
      ]
