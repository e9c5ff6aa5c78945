-- ===== src/Config/Tests.antt =====
-- A configuration from its sources, validated, and the theorems there.
use go_webssh.Base.{◌≡◌, refl, true, false, none, some, [], ◌∷◌, ok, if◌then◌else◌, any}
use go_webssh.Int.{pos}
use go_webssh.Text.{Text, codes, byte_len, text_eq, trim_space, to_lower}
use go_webssh.Config.{Config, RawConfig, default, apply_raw, apply_env, apply_flags, is_true}
use go_webssh.Config.Validate.{
  validate, check_required, policy_of, check_policy, check_ports, check_credentials, fill_auth,
  fill_ssh, fill_tunnel,
}
use go_webssh.Config.Validate.Ready.{IsReady, validate-IsReady}
use go_webssh.Config.Validate.Fixed.{validate_ready}

-- The variables of a small environment.
abbrev sample_env : Text → Text
sample_env key =
    if text_eq key (codes "GOWEBSSH_SESSION_SECRET")
    then codes "0123456789abcdef"
    else if text_eq key (codes "GOWEBSSH_TUNNEL_ENABLED")
    then codes "TRUE"
    else []

-- A file that sets a password, a listening address, a policy in capitals and two tunnel ports.
abbrev sample_file : RawConfig
sample_file = record {
  server = record {
    listen = codes ":80";
    session_secret = codes "short";
    secure_cookie = true;
    allowed_origins = none;
  };
  auth = record { username = []; password = codes "pw"; password_hash = []; session_ttl = pos 0 };
  ssh = record {
    connect_timeout = pos 0;
    idle_timeout = pos 7;
    max_sessions = pos 0;
    host_key_policy = codes " Known-Hosts";
    known_hosts_file = [];
  };
  tunnel = record {
    enabled = false;
    connect_timeout = pos 0;
    write_timeout = pos 0;
    idle_timeout = pos 0;
    max_connections = pos 9;
    allowed_ports = some (pos 22 ∷ pos 2222 ∷ []);
  };
  network_policy = record { allow_private_ranges = false; deny = none; allow = none };
  logging_level = [];
  credentials = record { enabled = none; db_file = []; key_file = [] };
  themes_dir = [];
}

abbrev sample : Config
sample = apply_flags (apply_env sample_env (apply_raw default sample_file)) []

abbrev sample_out : Config
sample_out = record sample {
  ssh = record sample.ssh { host_key_policy = codes "known-hosts" };
  credentials = record sample.credentials { key_file = codes "./credentials.db.key" };
}

-- What the code does on it.
runs : Unit {0}
unfolding apply_flags apply_env apply_raw is_true validate check_required policy_of check_policy
    check_ports check_credentials fill_auth fill_ssh fill_tunnel byte_len trim_space to_lower
    text_eq any
runs =
    let port_80 : sample.server.listen ≡ codes ":80" = refl in
    let tunnel_on : sample.tunnel.enabled ≡ true = refl in
    let secure : sample.server.secure_cookie ≡ true = refl in
    let valid : validate sample ≡ ok sample_out = refl in
    let again : validate sample_out ≡ ok sample_out = refl in tt

sample-valid : validate sample ≡ ok sample_out
unfolding apply_flags apply_env apply_raw is_true validate check_required policy_of check_policy
    check_ports check_credentials fill_auth fill_ssh fill_tunnel byte_len trim_space to_lower
    text_eq any
sample-valid = refl

sample_out-IsReady : IsReady sample_out
sample_out-IsReady = validate-IsReady sample sample_out sample-valid

validate-IsReady_example : IsReady sample_out
validate-IsReady_example = validate-IsReady sample sample_out sample-valid

validate_ready_example : validate sample_out ≡ ok sample_out
validate_ready_example = validate_ready sample_out sample_out-IsReady
