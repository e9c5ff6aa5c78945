-- ===== src/Cli/Flags.antt =====
-- The options of cmd/webssh-cli/options.go: what the flags, the arguments and the environment say of a tunnel
-- (`resolveTunnelOptions`) and of private connections (`resolvePrivateConnect`).
pub mod Laws
mod Tests
use go_webssh.Base.{
  ℕ, Bool, true, false, not, ◌&&◌, ◌||◌, Option, none, some, List, [], ◌∷◌, Result, ok, err, ◌>>=◌,
  ◌>>◌, fail_if, or_fail, if◌then◌else◌, is_empty, any, ◌==◌,
}
use go_webssh.Int.{ℤ, pos, eq_ℤ, out_of_range}
use go_webssh.Text.{Text, codes, text_eq, trim_space}
use go_webssh.Text.Decimal.{atoi_ℤ}
use go_webssh.Cli.Destination.{Destination, DestinationError, parse_destination}
use go_webssh.Cli.Tunnel.{Options}

-- `strconv.ParseBool`
unfoldable pub parse_bool : Text → Option Bool
unfolding any text_eq
parse_bool s =
    if any (text_eq s)
      (codes "1" ∷ codes "t" ∷ codes "T" ∷ codes "true" ∷ codes "TRUE" ∷ codes "True" ∷ [])
    then some true
    else if any (text_eq s)
        (codes "0" ∷ codes "f" ∷ codes "F" ∷ codes "false" ∷ codes "FALSE" ∷ codes "False" ∷ [])
    then some false
    else none

-- What `flag` has parsed: which flags were given, the arguments behind them, and the values that are read here.
pub record Flags : Type 0 where
  pub explicit : Text → Bool
  pub args : List Text
  pub stdio : Bool
  pub list_saved : Bool
  pub saved : Text

-- `os.Getenv`
abbrev pub Environment : Type 0
Environment = Text → Text

pub data FlagError : Type 0 where
  stdio_not_boolean private_not_boolean with_saved tunnel_port too_many_arguments : FlagError
  host_required env_port port_range : FlagError
  bad_destination : DestinationError → FlagError

-- A variable of the environment that stands for a flag that was not given.
unfoldable pub flag_or_env : Bool → Bool → Text → FlagError → Result FlagError Bool
unfolding parse_bool trim_space
flag_or_env explicit value raw bad =
    if explicit || is_empty (trim_space raw)
    then ok value
    else or_fail (parse_bool (trim_space raw)) bad

-- `resolvePrivateConnect`
unfoldable pub resolve_private_connect : Flags → Bool → Environment → Result FlagError Bool
unfolding flag_or_env
resolve_private_connect f value getenv =
    flag_or_env (f.explicit (codes "private-connect")) value
      (getenv (codes "GOWEBSSH_PRIVATE_CONNECT")) private_not_boolean

-- `strconv.Atoi` of a port, within its bounds.
unfoldable pub read_port : Text → FlagError → Result FlagError ℤ
unfolding atoi_ℤ
read_port s bad = do port ← or_fail (atoi_ℤ s) bad; fail_if (out_of_range 1 65535 port) bad; ok port

-- The destination that `ParseDestination` read, whose user is not used; its port 0 stands for none.
unfoldable pub with_destination :
    Options → Bool → Result DestinationError Destination → Result FlagError (Options × Bool)
with_destination opt given (err e) = err (bad_destination e)
with_destination opt given (ok d) =
    if d.port == 0
    then ok (record opt { host = d.host }, given)
    else ok (record opt { host = d.host; port = pos d.port }, true)

-- The switch on the arguments: the host and the port that they name, and whether there is a port.
unfoldable pub read_args :
    Environment → Options → Bool → List Text → Result FlagError (Options × Bool)
unfolding with_destination read_port parse_destination trim_space
read_args getenv opt given [] =
    ok (record opt { host = trim_space (getenv (codes "GOWEBSSH_TARGET_HOST")) }, given)
read_args getenv opt given (a ∷ []) = with_destination opt given (parse_destination a)
read_args getenv opt given (a ∷ p ∷ []) = do
  port ← read_port p tunnel_port
  ok (record opt { host = trim_space a; port = port }, true)
read_args getenv opt given (_ ∷ _ ∷ _ ∷ _) = err too_many_arguments

-- The port of the environment, where no other is given.
unfoldable pub env_port_for : Environment → Options → Bool → Result FlagError Options
unfolding read_port trim_space
env_port_for getenv opt given =
    let value = trim_space (getenv (codes "GOWEBSSH_TARGET_PORT")) in
    if given || is_empty value
    then ok opt
    else read_port value env_port >>= λ port. ok (record opt { port = port })

-- The default of the port, and its bounds.
unfoldable pub settle_port : Options → Result FlagError Options
settle_port opt =
    let port = if eq_ℤ opt.port (pos 0) then pos 22 else opt.port in
    if out_of_range 1 65535 port then err port_range else ok (record opt { port = port })

-- What follows the decision for a tunnel.
unfoldable pub tunnel_target : Flags → Options → Environment → Result FlagError Options
unfolding read_args env_port_for settle_port
tunnel_target f opt getenv = do
  fail_if (f.list_saved || not (is_empty f.saved)) with_saved
  (named, given) ← read_args getenv opt (f.explicit (codes "p") || f.explicit (codes "port")) f.args
  fail_if (is_empty named.host) host_required
  placed ← env_port_for getenv named given
  settle_port placed

-- `resolveTunnelOptions`: the options, and whether there is a tunnel
unfoldable pub resolve_tunnel_options :
    Flags → Options → Environment → Result FlagError (Options × Bool)
unfolding flag_or_env tunnel_target
resolve_tunnel_options f opt getenv = do
  stdio ←
      flag_or_env (f.explicit (codes "stdio")) f.stdio (getenv (codes "GOWEBSSH_STDIO"))
        stdio_not_boolean
  if stdio then (tunnel_target f opt getenv >>= λ o. ok (o, true)) else ok (opt, false)
