-- ===== src/Cli/Flags/Tests.antt =====
-- The options of a tunnel on concrete flags.
use go_webssh.Base.{◌≡◌, refl, true, false, [], ◌∷◌, ok, err, if◌then◌else◌, any}
use go_webssh.Int.{pos}
use go_webssh.Text.{Text, codes, text_eq, trim_space}
use go_webssh.Text.Decimal.{atoi, atoi_ℤ}
use go_webssh.Cli.Tunnel.{Options}
use go_webssh.Cli.Flags.{
  Flags, Environment, flag_or_env, parse_bool, read_args, read_port, env_port_for, settle_port,
  tunnel_target, resolve_tunnel_options, resolve_private_connect, env_port, with_saved,
}

abbrev given : Options
given = record {
  server_url = codes "https://webssh.example.com";
  web_user = codes "admin";
  web_password = codes "secret";
  host = [];
  port = pos 0;
}

abbrev flags : Flags
flags = record {
  explicit = λ name. text_eq name (codes "stdio");
  args = codes "target" ∷ codes "+2222" ∷ [];
  stdio = true;
  list_saved = false;
  saved = [];
}

abbrev environment : Text → Environment
environment port name =
    if text_eq name (codes "GOWEBSSH_TARGET_PORT")
    then port
    else if text_eq name (codes "GOWEBSSH_TARGET_HOST")
    then codes " inner "
    else if text_eq name (codes "GOWEBSSH_PRIVATE_CONNECT")
    then codes " TRUE "
    else []

two_arguments :
    resolve_tunnel_options flags given (environment (codes "99999"))
    ≡ ok (record given { host = codes "target"; port = pos 2222 }, true)
unfolding resolve_tunnel_options tunnel_target flag_or_env read_args read_port env_port_for
    settle_port trim_space text_eq atoi_ℤ atoi
two_arguments = refl

from_environment :
    resolve_tunnel_options (record flags { args = [] }) given (environment (codes " 443 "))
    ≡ ok (record given { host = codes "inner"; port = pos 443 }, true)
unfolding resolve_tunnel_options tunnel_target flag_or_env read_args read_port env_port_for
    settle_port trim_space text_eq atoi_ℤ atoi
from_environment = refl

bad_port :
    resolve_tunnel_options (record flags { args = [] }) given (environment (codes "65536"))
    ≡ err env_port
unfolding resolve_tunnel_options tunnel_target flag_or_env read_args read_port env_port_for
    settle_port trim_space text_eq atoi_ℤ atoi
bad_port = refl

with_list :
    resolve_tunnel_options (record flags { list_saved = true }) given (environment [])
    ≡ err with_saved
unfolding resolve_tunnel_options tunnel_target flag_or_env
with_list = refl

private_by_environment : resolve_private_connect flags false (environment []) ≡ ok true
unfolding resolve_private_connect flag_or_env parse_bool trim_space text_eq any
private_by_environment = refl
