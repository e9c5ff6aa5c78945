-- ===== src/Ssh.antt =====
-- internal/sshclient/client.go: the key, the connection and the shell on it.
pub mod Laws
mod Tests
pub mod Metrics
pub mod Primitives
pub use Primitives.*
use go_webssh.Base.{
  ℕ, ◌*◌, Bool, true, false, not, ◌&&◌, ◌||◌, Option, none, some, List, [], ◌∷◌, ◌++◌, String,
  Result, ok, err, ◌>>=◌, ◌>>◌, fail_if, or_fail, if◌then◌else◌, is_empty, ltb,
}
use go_webssh.Int.{ℤ, pos, ltb_ℤ, leb_ℤ}
use go_webssh.Text.{Text, codes, trim_space, to_lower, contains, byte_len}
use go_webssh.Code.{Code, ApiError}
use go_webssh.Net.{join_host_port, itoa_ℤ}
use go_webssh.Auth.Store.{second}

abbrev coded : Code → String → ApiError
coded code message = record { code = code; message = message }

-- `mapPrivateKeyError`, from the error's text
unfoldable pub map_private_key_error : Text → ApiError
unfolding to_lower contains
map_private_key_error text =
    let msg = to_lower text in
    if contains msg (codes "passphrase")
      || contains msg (codes "decryption")
      || contains msg (codes "x509: decryption password incorrect")
    then coded Code.private_key_passphrase_invalid "private key passphrase is incorrect"
    else coded Code.private_key_invalid "private key is invalid or unsupported"

-- `mapDialError`, from the error's text
unfoldable pub map_dial_error : Text → ApiError
unfolding to_lower contains
map_dial_error text =
    let lower = to_lower text in
    if contains lower (codes "unable to authenticate")
      || contains lower (codes "no supported methods remain")
      || contains lower (codes "permission denied")
    then coded Code.ssh_auth_failed "SSH authentication failed"
    else if contains lower (codes "i/o timeout")
        || contains lower (codes "timeout")
        || contains lower (codes "timed out")
    then coded Code.ssh_connect_timeout "SSH connection timed out"
    else coded Code.ssh_connect_failed "SSH connection failed"

-- `unwrapHostKey`: the first host key error along the chain of wrapped errors.
unfoldable pub unwrap_host_key : List Link → Option ApiError
unwrap_host_key [] = none
unwrap_host_key (host_key e ∷ chain) = some e
unwrap_host_key (other ∷ chain) = unwrap_host_key chain

abbrev session_failed : String → ApiError
session_failed = coded Code.ssh_session_failed

-- A step on the session: where it fails, the session and the client are closed.
abbrev pub or_close : List SshEvent → Bool → String → Outcome → Outcome
or_close closing true message rest = rest
or_close closing false message rest = (err (session_failed message), closing)

-- What follows some events.
abbrev pub behind : List SshEvent → Outcome → Outcome
behind events (result, later) = (result, events ++ later)

module _ (ssh : Primitives.Ssh) where
  -- `ParseSigner`
  unfoldable pub parse_signer : Text → Text → Result ApiError Handle
  parse_signer private_key passphrase =
      if not (is_empty passphrase)
      then (elim (ssh.parse_key_with_passphrase private_key passphrase) [
        | ok signer ↦ ok signer
        | err e ↦ err (map_private_key_error e.message)
      ])
      else elim (ssh.parse_key private_key) [
        | ok signer ↦ ok signer
        | err e ↦
            if e.passphrase_missing
            then err
                (coded Code.private_key_passphrase_required "private key passphrase is required")
            else err (map_private_key_error e.message)
      ]

  -- The checks of `Connect` before it dials.
  unfoldable pub check_key : ConnectRequest → Result ApiError Handle
  check_key req = do
    fail_if (is_empty (trim_space req.private_key))
        (coded Code.private_key_required "private key is required")
    fail_if (ltb (256 * 1024) (byte_len req.private_key))
        (coded Code.private_key_too_large "private key is too large")
    parse_signer req.private_key req.passphrase

  -- `ssh.Dial` with the defaults of `Connect` and its errors sorted.
  unfoldable pub dial_client : ConnectRequest → ℤ → Handle → Result ApiError Handle
  dial_client req timeout signer =
      let wait = if leb_ℤ timeout (pos 0) then pos (15 * second) else timeout in
      elim (ssh.dial (join_host_port req.host (itoa_ℤ req.port)) req.username signer wait) [
        | ok client ↦ ok client
        | err e ↦ elim (unwrap_host_key e.chain) [
          | some he ↦ err he
          | none ↦ err (map_dial_error e.message)
        ]
      ]

  -- `herdrAvailable`: whether the command is there, and the probe session.
  unfoldable pub herdr_available : Handle → Bool × List SshEvent
  herdr_available client = elim (ssh.new_session 0 client) [
    | none ↦ (false, [])
    | some probe ↦ (
      ssh.run probe (codes "command -v herdr >/dev/null 2>&1"),
      opened (a_session probe) ∷ closed (a_session probe) ∷ [],
    )
  ]

  -- The shell in a session, from `StdinPipe` on.
  unfoldable pub start_shell : ConnectRequest → Handle → Handle → Bool → Outcome
  start_shell req client session herdr_active =
      let term = if is_empty req.term then codes "xterm-256color" else req.term in
      let rows = if ltb_ℤ req.rows (pos 5) then pos 24 else req.rows in
      let cols = if ltb_ℤ req.cols (pos 20) then pos 80 else req.cols in
      let attach = codes "herdr session attach " ++ req.herdr_session ++ codes "\r" in
      let closing = closed (a_session session) ∷ closed (a_client client) ∷ [] in
      or_close closing (ssh.stdin_pipe session) "failed to open SSH stdin" (
        or_close closing (ssh.stdout_pipe session) "failed to open SSH stdout" (
          or_close closing (ssh.stderr_pipe session) "failed to open SSH stderr" (
            or_close closing (ssh.request_pty session term rows cols) "failed to request PTY" (
              or_close closing (ssh.shell session) "failed to start shell" (
                or_close closing
                  (not (herdr_active && not (is_empty req.herdr_session))
                    || ssh.write session attach)
                  "failed to start recoverable Herdr session"
                  (
                    ok (record {
                      client = client;
                      session = session;
                      herdr_active = herdr_active;
                      herdr_session = req.herdr_session;
                    }),
                    [],
                  ))))))

  -- The session for the shell, from `NewSession` on; the probe counts as the session 0 of its client.
  unfoldable pub new_shell : ConnectRequest → Handle → Bool → Outcome
  unfolding start_shell
  new_shell req client herdr_active = elim (ssh.new_session 1 client) [
    | none ↦ (err (session_failed "failed to create SSH session"), closed (a_client client) ∷ [])
    | some session ↦
        behind (opened (a_session session) ∷ []) (start_shell req client session herdr_active)
  ]

  -- `req.UseHerdr && herdrAvailable(client)`
  unfoldable pub probe_herdr : ConnectRequest → Handle → Bool × List SshEvent
  unfolding herdr_available
  probe_herdr req client = if req.use_herdr then herdr_available client else (false, [])

  -- The shell on a client that was dialled.
  unfoldable pub open_shell : ConnectRequest → Handle → Outcome
  unfolding probe_herdr new_shell
  open_shell req client =
      let (herdr_active, probing) = probe_herdr req client in
      behind (opened (a_client client) ∷ probing) (new_shell req client herdr_active)

  -- `Connect`: the result, and what it has opened and closed.
  unfoldable pub connect : ConnectRequest → ℤ → Outcome
  connect req timeout = elim (check_key req) [
    | err e ↦ (err e, [])
    | ok signer ↦ elim (dial_client req timeout signer) [
      | err e ↦ (err e, [])
      | ok client ↦ open_shell req client
    ]
  ]

-- `Session.Close`: the session before the client.
unfoldable pub close : Session → List SshEvent
close s = closed (a_session s.session) ∷ closed (a_client s.client) ∷ []
