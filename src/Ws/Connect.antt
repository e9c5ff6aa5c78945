-- ===== src/Ws/Connect.antt =====
-- The checks of `handleConnect` in internal/ws/handler.go, and the values that it fills in.
pub mod Laws
use go_webssh.Base.{
  ℕ, ◌*◌, Bool, true, false, not, ◌&&◌, ◌||◌, List, ◌++◌, String, Result, ok, err, ◌>>=◌, ◌>>◌,
  fail_if, if◌then◌else◌, is_empty, ltb, leb, ◌==◌,
}
use go_webssh.Int.{ℤ, pos, eq_ℤ, out_of_range}
use go_webssh.Text.{Text, codes, trim_space, byte_len, all_runes, is_digit}
use go_webssh.Code.{Code, ApiError}
use go_webssh.Ws.Protocol.{ConnectData}

abbrev pub reject : Code → String → ApiError
reject code message = record { code = code; message = message }

-- `r == '-' || r == '_' || ...`: the runes of a session's name.
unfoldable pub is_name_rune : ℕ → Bool
is_name_rune c =
    c == b'-' || c == b'_' || (leb b'a' c && leb c b'z') || (leb b'A' c && leb c b'Z') || is_digit c

-- `if x == "" { x = y }`
abbrev pub or_else : Text → Text → Text
or_else x y = if is_empty x then y else x

-- The host, the port and the name of the user, trimmed and with the default port.
unfoldable pub trimmed : ConnectData → ConnectData
trimmed cd = record cd {
  host = trim_space cd.host;
  username = trim_space cd.username;
  port = if eq_ℤ cd.port (pos 0) then pos 22 else cd.port;
}

unfoldable pub check_target : ConnectData → Result ApiError (Unit {0})
check_target cd = do
  fail_if (is_empty cd.host) (reject Code.invalid_host "host is required")
  fail_if (ltb 253 (byte_len cd.host)) (reject Code.invalid_host "host is too long")
  fail_if (out_of_range 1 65535 cd.port)
      (reject Code.invalid_port "port must be between 1 and 65535")
  fail_if (is_empty cd.username || ltb 128 (byte_len cd.username))
      (reject Code.bad_request "username is required")

unfoldable pub check_secrets : ConnectData → Result ApiError (Unit {0})
check_secrets cd = do
  fail_if (is_empty (trim_space cd.private_key))
      (reject Code.private_key_required "private key is required")
  fail_if (ltb (128 * 1024) (byte_len cd.private_key))
      (reject Code.private_key_too_large "private key is too large")
  fail_if (ltb (8 * 1024) (byte_len cd.passphrase))
      (reject Code.bad_request "passphrase is too large")

-- The terminal, and the session's name, from its fields, their older spellings, or a fresh one.
unfoldable pub filled : Text → ConnectData → ConnectData
filled fresh cd =
    let use_herdr = cd.use_herdr || (not cd.use_herdr && cd.legacy_use_tmux) in
    let named = or_else cd.herdr_session cd.tmux_session in
    record cd {
      term = or_else cd.term (codes "xterm-256color");
      use_herdr = use_herdr;
      herdr_session = if use_herdr then or_else named (codes "gowebssh-" ++ fresh) else named;
      rows = if out_of_range 5 200 cd.rows then pos 24 else cd.rows;
      cols = if out_of_range 20 500 cd.cols then pos 80 else cd.cols;
    }

unfoldable pub check_terminal : ConnectData → Result ApiError (Unit {0})
check_terminal cd = do
  fail_if (ltb 64 (byte_len cd.term)) (reject Code.bad_request "term is invalid")
  fail_if
      (cd.use_herdr
        && (ltb 64 (byte_len cd.herdr_session) || not (all_runes is_name_rune cd.herdr_session)))
      (reject Code.bad_request "Herdr session name is invalid")

-- The request as it is used, or why it is refused; `fresh` is the id for a session without a name.
unfoldable pub prepare : Text → ConnectData → Result ApiError ConnectData
prepare fresh raw = do
  let cd = trimmed raw
  check_target cd
  check_secrets cd
  let whole = filled fresh cd
  check_terminal whole
  ok whole
