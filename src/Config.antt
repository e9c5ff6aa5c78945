-- ===== src/Config.antt =====
-- internal/config/config.go: defaults, and the overrides of a file, the environment and the flags.
mod Types
pub mod Validate
mod Tests
pub use Types.*
use go_webssh.Base.{
  ℕ, ◌*◌, Bool, true, false, not, ◌&&◌, ◌||◌, Option, none, some, List, [], ◌∷◌, if◌then◌else◌,
  is_empty, is_some,
}
use go_webssh.Int.{ℤ, pos, ltb_ℤ}
use go_webssh.Text.{Text, codes, text_eq, equal_fold}
use go_webssh.Auth.Store.{second, hour}

abbrev pub minute : ℕ
minute = 60 * second

-- `Default`
abbrev pub default : Config
default = record {
  server = record {
    listen = codes "127.0.0.1:8080";
    session_secret = [];
    secure_cookie = false;
    allowed_origins = [];
  };
  auth = record {
    username = codes "admin";
    password = [];
    password_hash = [];
    session_ttl = pos (12 * hour);
  };
  ssh = record {
    connect_timeout = pos (15 * second);
    idle_timeout = pos (30 * minute);
    max_sessions = pos 5;
    host_key_policy = codes "known-hosts";
    known_hosts_file = codes "./known_hosts";
  };
  tunnel = record {
    enabled = false;
    connect_timeout = pos (15 * second);
    write_timeout = pos (30 * second);
    idle_timeout = pos (30 * minute);
    max_connections = pos 5;
    allowed_ports = pos 22 ∷ [];
  };
  network_policy = record {
    allow_private_ranges = false;
    deny = codes "127.0.0.0/8" ∷ codes "169.254.0.0/16" ∷ codes "::1/128" ∷ codes "0.0.0.0/8" ∷ [];
    allow = [];
  };
  logging_level = codes "info";
  credentials = record {
    enabled = true;
    db_file = codes "./credentials.db";
    key_file = [];
    key_hex = [];
  };
  themes_dir = codes "./themes";
}

-- `if v != "" { x = v }`
abbrev pub or_text : Text → Text → Text
or_text given x = if is_empty given then x else given

-- `if v > 0 { x = v }`
abbrev pub or_positive : ℤ → ℤ → ℤ
or_positive given x = if ltb_ℤ (pos 0) given then given else x

-- `if v != nil { x = v }`
abbrev pub or_given {ℓ} : {A : Type ℓ} → Option A → A → A
or_given none x = x
or_given (some given) x = given

apply_policy : NetworkPolicyConfig → RawPolicy → NetworkPolicyConfig
apply_policy p raw =
    if is_some raw.deny || is_some raw.allow || raw.allow_private_ranges
    then record {
      allow_private_ranges = raw.allow_private_ranges;
      deny = or_given raw.deny p.deny;
      allow = or_given raw.allow p.allow;
    }
    else p

-- `applyRaw`
unfoldable pub apply_raw : Config → RawConfig → Config
unfolding apply_policy
apply_raw cfg raw = record {
  server = record {
    listen = or_text raw.server.listen cfg.server.listen;
    session_secret = or_text raw.server.session_secret cfg.server.session_secret;
    secure_cookie = raw.server.secure_cookie;
    allowed_origins = or_given raw.server.allowed_origins cfg.server.allowed_origins;
  };
  auth = record {
    username = or_text raw.auth.username cfg.auth.username;
    password = or_text raw.auth.password cfg.auth.password;
    password_hash = or_text raw.auth.password_hash cfg.auth.password_hash;
    session_ttl = or_positive raw.auth.session_ttl cfg.auth.session_ttl;
  };
  ssh = record {
    connect_timeout = or_positive raw.ssh.connect_timeout cfg.ssh.connect_timeout;
    idle_timeout = or_positive raw.ssh.idle_timeout cfg.ssh.idle_timeout;
    max_sessions = or_positive raw.ssh.max_sessions cfg.ssh.max_sessions;
    host_key_policy = or_text raw.ssh.host_key_policy cfg.ssh.host_key_policy;
    known_hosts_file = or_text raw.ssh.known_hosts_file cfg.ssh.known_hosts_file;
  };
  tunnel = record {
    enabled = raw.tunnel.enabled;
    connect_timeout = or_positive raw.tunnel.connect_timeout cfg.tunnel.connect_timeout;
    write_timeout = or_positive raw.tunnel.write_timeout cfg.tunnel.write_timeout;
    idle_timeout = or_positive raw.tunnel.idle_timeout cfg.tunnel.idle_timeout;
    max_connections = or_positive raw.tunnel.max_connections cfg.tunnel.max_connections;
    allowed_ports = or_given raw.tunnel.allowed_ports cfg.tunnel.allowed_ports;
  };
  network_policy = apply_policy cfg.network_policy raw.network_policy;
  logging_level = or_text raw.logging_level cfg.logging_level;
  credentials = record {
    enabled = or_given raw.credentials.enabled cfg.credentials.enabled;
    db_file = or_text raw.credentials.db_file cfg.credentials.db_file;
    key_file = or_text raw.credentials.key_file cfg.credentials.key_file;
    key_hex = cfg.credentials.key_hex;
  };
  themes_dir = or_text raw.themes_dir cfg.themes_dir;
}

-- `strings.EqualFold(v, "true") || v == "1"`
unfoldable pub is_true : Text → Bool
unfolding equal_fold text_eq
is_true v = equal_fold v (codes "true") || text_eq v (codes "1")

-- `if v != "" { x = is_true(v) }`
abbrev pub or_flag : Text → Bool → Bool
or_flag given x = if is_empty given then x else is_true given

module _ (env : Text → Text) where
  -- `ApplyEnv`, over what `os.Getenv` returns.
  unfoldable pub apply_env : Config → Config
  apply_env cfg = record {
    server = record {
      listen = or_text (env (codes "GOWEBSSH_LISTEN")) cfg.server.listen;
      session_secret = or_text (env (codes "GOWEBSSH_SESSION_SECRET")) cfg.server.session_secret;
      secure_cookie = or_flag (env (codes "GOWEBSSH_SECURE_COOKIE")) cfg.server.secure_cookie;
      allowed_origins = cfg.server.allowed_origins;
    };
    auth = record {
      username = or_text (env (codes "GOWEBSSH_USERNAME")) cfg.auth.username;
      password = or_text (env (codes "GOWEBSSH_PASSWORD")) cfg.auth.password;
      password_hash = or_text (env (codes "GOWEBSSH_PASSWORD_HASH")) cfg.auth.password_hash;
      session_ttl = cfg.auth.session_ttl;
    };
    ssh = record {
      connect_timeout = cfg.ssh.connect_timeout;
      idle_timeout = cfg.ssh.idle_timeout;
      max_sessions = cfg.ssh.max_sessions;
      host_key_policy = or_text (env (codes "GOWEBSSH_HOST_KEY_POLICY")) cfg.ssh.host_key_policy;
      known_hosts_file = or_text (env (codes "GOWEBSSH_KNOWN_HOSTS_FILE")) cfg.ssh.known_hosts_file;
    };
    tunnel = record {
      enabled = or_flag (env (codes "GOWEBSSH_TUNNEL_ENABLED")) cfg.tunnel.enabled;
      connect_timeout = cfg.tunnel.connect_timeout;
      write_timeout = cfg.tunnel.write_timeout;
      idle_timeout = cfg.tunnel.idle_timeout;
      max_connections = cfg.tunnel.max_connections;
      allowed_ports = cfg.tunnel.allowed_ports;
    };
    network_policy = record {
      allow_private_ranges =
          or_flag (env (codes "GOWEBSSH_ALLOW_PRIVATE_RANGES"))
            cfg.network_policy.allow_private_ranges;
      deny = cfg.network_policy.deny;
      allow = cfg.network_policy.allow;
    };
    logging_level = or_text (env (codes "GOWEBSSH_LOG_LEVEL")) cfg.logging_level;
    credentials = record {
      enabled = cfg.credentials.enabled;
      db_file = cfg.credentials.db_file;
      key_file = or_text (env (codes "GOWEBSSH_CREDENTIALS_KEY_FILE")) cfg.credentials.key_file;
      key_hex = or_text (env (codes "GOWEBSSH_CREDENTIALS_KEY")) cfg.credentials.key_hex;
    };
    themes_dir = or_text (env (codes "GOWEBSSH_THEMES_DIR")) cfg.themes_dir;
  }

-- `ApplyFlags`
unfoldable pub apply_flags : Config → Text → Config
apply_flags cfg listen = record cfg {
  server = record {
    listen = or_text listen cfg.server.listen;
    session_secret = cfg.server.session_secret;
    secure_cookie = cfg.server.secure_cookie;
    allowed_origins = cfg.server.allowed_origins;
  };
}

-- `UsesPlaintextPassword`
unfoldable pub uses_plaintext_password : Config → Bool
uses_plaintext_password c = not (is_empty c.auth.password) && is_empty c.auth.password_hash
