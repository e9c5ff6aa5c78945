-- ===== src/Config/Types.antt =====
-- The types of internal/config/config.go. A slice that may be nil, and a pointer, is an `Option`;
-- a duration is an integer of nanoseconds.
use go_webssh.Base.{Bool, Option, List}
use go_webssh.Int.{ℤ}
use go_webssh.Text.{Text}

pub record ServerConfig : Type 0 where
  pub listen : Text
  pub session_secret : Text
  pub secure_cookie : Bool
  pub allowed_origins : List Text

pub record AuthConfig : Type 0 where
  pub username : Text
  pub password : Text
  pub password_hash : Text
  pub session_ttl : ℤ

pub record SshConfig : Type 0 where
  pub connect_timeout : ℤ
  pub idle_timeout : ℤ
  pub max_sessions : ℤ
  pub host_key_policy : Text
  pub known_hosts_file : Text

pub record TunnelConfig : Type 0 where
  pub enabled : Bool
  pub connect_timeout : ℤ
  pub write_timeout : ℤ
  pub idle_timeout : ℤ
  pub max_connections : ℤ
  pub allowed_ports : List ℤ

pub record NetworkPolicyConfig : Type 0 where
  pub allow_private_ranges : Bool
  pub deny : List Text
  pub allow : List Text

pub record CredentialsConfig : Type 0 where
  pub enabled : Bool
  pub db_file : Text
  pub key_file : Text
  pub key_hex : Text

-- `logging_level` is the one field of `LoggingConfig`, and `themes_dir` that of `UIConfig`.
pub record Config : Type 0 where
  pub server : ServerConfig
  pub auth : AuthConfig
  pub ssh : SshConfig
  pub tunnel : TunnelConfig
  pub network_policy : NetworkPolicyConfig
  pub logging_level : Text
  pub credentials : CredentialsConfig
  pub themes_dir : Text

pub record RawServer : Type 0 where
  pub listen : Text
  pub session_secret : Text
  pub secure_cookie : Bool
  pub allowed_origins : Option (List Text)

pub record RawTunnel : Type 0 where
  pub enabled : Bool
  pub connect_timeout : ℤ
  pub write_timeout : ℤ
  pub idle_timeout : ℤ
  pub max_connections : ℤ
  pub allowed_ports : Option (List ℤ)

pub record RawPolicy : Type 0 where
  pub allow_private_ranges : Bool
  pub deny : Option (List Text)
  pub allow : Option (List Text)

pub record RawCredentials : Type 0 where
  pub enabled : Option Bool
  pub db_file : Text
  pub key_file : Text

-- `rawConfig`: its sections `auth` and `ssh` have the fields of the configuration's.
pub record RawConfig : Type 0 where
  pub server : RawServer
  pub auth : AuthConfig
  pub ssh : SshConfig
  pub tunnel : RawTunnel
  pub network_policy : RawPolicy
  pub logging_level : Text
  pub credentials : RawCredentials
  pub themes_dir : Text
