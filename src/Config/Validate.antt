-- ===== src/Config/Validate.antt =====
-- `Validate` of internal/config/config.go: the checks and the values that it fills in.
pub mod Laws
pub mod Ready
pub mod Fixed
use go_webssh.Base.{
  ℕ, ◌*◌, Bool, true, false, not, ◌&&◌, ◌||◌, Option, none, some, List, [], ◌∷◌, ◌++◌, Result, ok,
  err, ◌>>=◌, ◌>>◌, fail_if, if◌then◌else◌, is_empty, any, length, ltb, ◌==◌,
}
use go_webssh.Int.{ℤ, pos, leb_ℤ, eq_ℤ, out_of_range}
use go_webssh.Text.{Text, codes, text_eq, trim_space, to_lower, byte_len}
use go_webssh.Text.Hex.{hex_decode}
use go_webssh.Auth.Store.{second, hour}
use go_webssh.Config.Types.{Config, CredentialsConfig, SshConfig, AuthConfig, TunnelConfig}

-- The errors of `Validate`, by what is wrong.
pub data ConfigError : Type 0 where
  listen_required username_required password_required secret_required secret_short : ConfigError
  unknown_host_key_policy : Text → ConfigError
  known_hosts_required no_allowed_ports : ConfigError
  invalid_port duplicate_port : ℤ → ConfigError
  db_file_required invalid_key : ConfigError

-- `if x <= 0 { x = fallback }`
abbrev pub positive_or : ℤ → ℤ → ℤ
positive_or x fallback = if leb_ℤ x (pos 0) then fallback else x

-- The checks up to the session secret.
unfoldable pub check_required : Config → Result ConfigError (Unit {0})
check_required c = do
  fail_if (is_empty c.server.listen) listen_required
  fail_if (is_empty c.auth.username) username_required
  fail_if (is_empty c.auth.password && is_empty c.auth.password_hash) password_required
  fail_if (is_empty c.server.session_secret) secret_required
  fail_if (ltb (byte_len c.server.session_secret) 16) secret_short

-- The policy as it is compared: trimmed and in lower case.
unfoldable pub policy_of : Config → Text
policy_of c = to_lower (trim_space c.ssh.host_key_policy)

unfoldable pub check_policy : Config → Result ConfigError (Unit {0})
check_policy c = do
  fail_if
      (not (text_eq (policy_of c) (codes "known-hosts"))
        && not (text_eq (policy_of c) (codes "insecure-ignore")))
      (unknown_host_key_policy c.ssh.host_key_policy)
  fail_if
      (text_eq (policy_of c) (codes "known-hosts") && is_empty (trim_space c.ssh.known_hosts_file))
      known_hosts_required

-- The loop over the allowed ports, with those that it has seen.
unfoldable pub check_ports : List ℤ → List ℤ → Result ConfigError (Unit {0})
check_ports seen [] = ok tt
check_ports seen (port ∷ ports) = do
  fail_if (out_of_range 1 65535 port) (invalid_port port)
  fail_if (any (eq_ℤ port) seen) (duplicate_port port)
  check_ports (port ∷ seen) ports

-- `hex.DecodeString(strings.TrimSpace(value))` yields 32 bytes.
unfoldable pub is_key_hex : Text → Bool
unfolding hex_decode trim_space
is_key_hex value = elim (hex_decode (trim_space value)) [
  | none ↦ false
  | some decoded ↦ length decoded == 32
]

-- The checks of the credential storage, with the key file that it fills in.
unfoldable pub check_credentials : CredentialsConfig → Result ConfigError CredentialsConfig
check_credentials c = if not c.enabled then ok c else do
  fail_if (is_empty (trim_space c.db_file)) db_file_required
  fail_if (not (is_empty c.key_hex) && not (is_key_hex c.key_hex)) invalid_key
  ok (record c {
    key_file = if is_empty (trim_space c.key_file) then c.db_file ++ codes ".key" else c.key_file;
  })

-- The values that take the place of those that are not positive.
unfoldable pub fill_auth : AuthConfig → AuthConfig
fill_auth a = record a { session_ttl = positive_or a.session_ttl (pos (12 * hour)) }

unfoldable pub fill_ssh : Text → SshConfig → SshConfig
fill_ssh policy s = record s {
  host_key_policy = policy;
  max_sessions = positive_or s.max_sessions (pos 5);
  connect_timeout = positive_or s.connect_timeout (pos (15 * second));
  idle_timeout = positive_or s.idle_timeout (pos (1800 * second));
}

unfoldable pub fill_tunnel : TunnelConfig → TunnelConfig
fill_tunnel t = record t {
  connect_timeout = positive_or t.connect_timeout (pos (15 * second));
  write_timeout = positive_or t.write_timeout (pos (30 * second));
  idle_timeout = positive_or t.idle_timeout (pos (1800 * second));
  max_connections = positive_or t.max_connections (pos 5);
}

-- `Validate`: the error, or the configuration as it is left behind. What it has filled in before an
-- error is not kept, since the caller gives the configuration up.
unfoldable pub validate : Config → Result ConfigError Config
validate c = do
  check_required c
  check_policy c
  fail_if (is_empty c.tunnel.allowed_ports) no_allowed_ports
  check_ports [] c.tunnel.allowed_ports
  credentials ← check_credentials c.credentials
  ok (record c {
    auth = fill_auth c.auth;
    ssh = fill_ssh (policy_of c) c.ssh;
    tunnel = fill_tunnel c.tunnel;
    credentials = credentials;
  })
