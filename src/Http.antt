-- ===== src/Http.antt =====
-- The handlers of internal/httpserver/server.go for credentials, on decoded requests.
pub mod Laws
mod Tests
pub mod Account
use go_webssh.Base.{
  ℕ, ◌*◌, Bool, true, false, not, ◌&&◌, ◌||◌, Option, none, some, List, String, Result, ok, err,
  ◌>>=◌, ◌>>◌, fail_if, or_fail, if◌then◌else◌, is_empty, ltb, ◌==◌,
}
use go_webssh.Int.{ℤ, pos, eq_ℤ, out_of_range}
use go_webssh.Text.{Text, trim_space, byte_len}
use go_webssh.Code.{Code, ApiError}
use go_webssh.Auth.Primitives.{Crypto, Bytes}
use go_webssh.Auth.Store.{Store, SessionInfo}
use go_webssh.Auth.{Authenticator, session_from_request}
use go_webssh.Vault.{
  Library, Credential, Summary, Database, VaultError, not_found, get, put_for_user, delete, migrate,
  summary_of,
}
use go_webssh.Vault.Listing.{list_summaries}

-- `Server`: the sessions and the vault, if there is one.
pub record Server : Type 0 where
  pub sessions : Store
  pub vault : Option Database

-- `writeErr`: the status, the code and the message.
pub record Failure : Type 0 where
  pub status : ℕ
  pub error : ApiError

abbrev pub failure : ℕ → Code → String → Failure
failure status code message = record {
  status = status;
  error = record { code = code; message = message };
}

pub data Reply : Type 0 where
  failed : Failure → Reply
  done : Reply
  credential : Credential → Reply
  saved : Summary → Reply
  migrated : ℕ → ℕ → Reply
  listed : List Summary → ℕ → Reply

abbrev pub auth_required : Failure
auth_required = failure 401 Code.auth_required "authentication required"

-- `credentialSession`: the session and the vault, or the failure that was answered, and the sessions behind it.
unfoldable pub credential_session :
    Crypto
    → Authenticator
    → ℕ
    → Option Text
    → Server
    → Result Failure (SessionInfo × Database) × Server
unfolding session_from_request
credential_session crypto auth now cookie server =
    let (info, seen) = session_from_request crypto auth now cookie server.sessions in
    (
      (do
        known ← or_fail info auth_required
        db ←
            or_fail server.vault
              (failure 503 Code.credential_storage_disabled "credential storage is disabled")
        ok (known, db)),
      record server { sessions = seen },
    )

-- A handler behind its guard, which it leaves where the guard has answered.
abbrev behind :
    Result Failure (SessionInfo × Database) × Server
    → (SessionInfo → Database → Reply × Database)
    → Reply × Server
behind (err e, server) body = (failed e, server)
behind (ok (info, db), server) body =
    let (reply, after) = body info db in (reply, record server { vault = some after })

-- The credential of `handleCredentialPut`, trimmed and checked.
unfoldable pub check_credential : ℕ → Option Credential → Result Failure Credential
check_credential size decoded = do
  fail_if (ltb (256 * 1024) size) (failure 400 Code.bad_request "credential is too large")
  raw ← or_fail decoded (failure 400 Code.bad_request "invalid JSON")
  let item : Credential = record raw {
    name = trim_space raw.name;
    host = trim_space raw.host;
    username = trim_space raw.username;
  }
  fail_if
      (is_empty item.name
        || is_empty item.host
        || is_empty item.username
        || is_empty item.private_key)
      (failure 400 Code.bad_request "name, host, username and private key are required")
  fail_if (not (eq_ℤ item.port (pos 0)) && out_of_range 1 65535 item.port)
      (failure 400 Code.invalid_port "port must be between 1 and 65535")
  fail_if
      (ltb (128 * 1024) (byte_len item.private_key) || ltb (8 * 1024) (byte_len item.passphrase))
      (failure 400 Code.bad_request "credential is too large")
  ok item

-- The routes on credentials, with what the handler reads of the request: an id, or the size of the
-- body and its content if it decodes. A body that cannot be read counts as one that is too large.
pub data Route : Type 0 where
  list_route : Route
  get_route delete_route : Text → Route
  put_route : ℕ → Option Credential → Route
  migrate_route : ℕ → Option Bytes → Route

module _ (lib : Library) (random : ℕ → Option Bytes) (salt master_key : Bytes) (now : ℕ)
    (fresh : Text) where
  -- `handleCredentialGet` behind the guard
  unfoldable pub handle_get : Text → Database → Reply × Database
  handle_get id db = elim (get lib master_key id db) [
    | ok item ↦ (credential item, db)
    | err not_found ↦ (failed (failure 404 Code.not_found "credential not found"), db)
    | err _ ↦ (
      failed (failure 422 Code.vault_decrypt_failed "credential vault could not be decrypted"),
      db,
    )
  ]

  -- `handleCredentialPut` behind the guard
  unfoldable pub handle_put : SessionInfo → ℕ → Option Credential → Database → Reply × Database
  handle_put info size decoded db = elim (check_credential size decoded) [
    | err e ↦ (failed e, db)
    | ok item ↦
        let (result, after) = put_for_user lib now random fresh master_key info.username item db in
        (
          elim result [
            | ok c ↦ saved (record (summary_of c info.username) { has_private_key = true })
            | err _ ↦ failed (failure 500 Code.internal_error "failed to save credential")
          ],
          after,
        )
  ]

  -- `handleCredentialMigrate` behind the guard
  unfoldable pub handle_migrate : ℕ → Option Bytes → Database → Reply × Database
  handle_migrate size password db =
      let missing = failure 400 Code.bad_request "earlier login password is required" in
      let wrong =
        failure 422 Code.vault_migrate_failed
          "the supplied password could not decrypt older credentials" in
      if ltb (16 * 1024) size
      then (failed (failure 400 Code.bad_request "migration request is too large"), db)
      else elim password [
        | none ↦ (failed missing, db)
        | some given ↦
            let (result, after) = migrate lib random salt master_key given db in
            if is_empty given then (failed missing, db) else (
              elim result [
                | ok (count, remaining) ↦
                    if count == 0 && ltb 0 remaining then failed wrong else migrated count remaining
                | err _ ↦
                    failed (failure 500 Code.vault_migrate_failed "credential migration failed")
              ],
              after,
            )
      ]

  -- `handleCredentialDelete` behind the guard
  unfoldable pub handle_delete : Text → Database → Reply × Database
  handle_delete id db =
      let (result, after) = delete id db in
      (
        elim result [
          | ok _ ↦ done
          | err _ ↦ failed (failure 400 Code.bad_request "failed to delete credential")
        ],
        after,
      )

  module _ (by_name : List Summary → List Summary) where
    -- `handleCredentialList` behind the guard. Of a summary, the answer leaves the owner out.
    unfoldable pub handle_list : SessionInfo → Database → Reply × Database
    unfolding list_summaries
    handle_list info db =
        let (result, after) = list_summaries lib master_key by_name info.username db in
        (
          elim result [
            | ok (items, unmigrated) ↦ listed items unmigrated
            | err _ ↦
                failed
                  (failure 422 Code.vault_decrypt_failed "credential vault could not be decrypted")
          ],
          after,
        )

    module _ (crypto : Crypto) (auth : Authenticator) (cookie : Option Text) where
      -- `handleCredentialList`
      unfoldable pub credential_list : Server → Reply × Server
      unfolding credential_session handle_list
      credential_list server =
          behind (credential_session crypto auth now cookie server) (λ info db. handle_list info db)

      -- `handleCredentialGet`
      unfoldable pub credential_get : Text → Server → Reply × Server
      unfolding credential_session handle_get
      credential_get id server =
          behind (credential_session crypto auth now cookie server) (λ info db. handle_get id db)

      -- `handleCredentialPut`
      unfoldable pub credential_put : ℕ → Option Credential → Server → Reply × Server
      unfolding credential_session handle_put
      credential_put size decoded server =
          behind (credential_session crypto auth now cookie server)
            (λ info db. handle_put info size decoded db)

      -- `handleCredentialMigrate`
      unfoldable pub credential_migrate : ℕ → Option Bytes → Server → Reply × Server
      unfolding credential_session handle_migrate
      credential_migrate size password server =
          behind (credential_session crypto auth now cookie server)
            (λ info db. handle_migrate size password db)

      -- `handleCredentialDelete`
      unfoldable pub credential_delete : Text → Server → Reply × Server
      unfolding credential_session handle_delete
      credential_delete id server =
          behind (credential_session crypto auth now cookie server) (λ info db. handle_delete id db)

      -- A request for one of these routes.
      unfoldable pub handle : Route → Server → Reply × Server
      unfolding credential_list credential_get credential_put credential_migrate credential_delete
      handle list_route server = credential_list server
      handle (get_route id) server = credential_get id server
      handle (delete_route id) server = credential_delete id server
      handle (put_route size decoded) server = credential_put size decoded server
      handle (migrate_route size password) server = credential_migrate size password server
