-- ===== src/Ws/Tunnel.antt =====
-- internal/ws/tunnel.go up to the relay: `ServeTunnelHTTP`, `connect`, what `run` makes of its error, and
-- `tunnelPortAllowed`.
pub mod Laws
mod Tests
use go_webssh.Base.{
  ℕ, Bool, true, false, not, ◌&&◌, ◌||◌, Option, none, some, List, [], ◌∷◌, String, Result, ok, err,
  ◌>>=◌, ◌>>◌, fail_if, or_fail, if◌then◌else◌, is_empty, any, ltb, is_some,
}
use go_webssh.Int.{ℤ, pos, eq_ℤ, pred_ℤ}
use go_webssh.Text.{Text, trim_space, byte_len}
use go_webssh.Code.{Code, ApiError}
use go_webssh.Net.{Netip}
use go_webssh.Security.Policy.{NetworkPolicy, resolve_allowed_host_port}
use go_webssh.Config.{TunnelConfig}
use go_webssh.Auth.Primitives.{Crypto}
use go_webssh.Auth.Store.{Store}
use go_webssh.Auth.{Authenticator, session_from_request}
use go_webssh.Ws.Origin.{Request, check_origin}
use go_webssh.Ws.Limit.{reserve}
use go_webssh.Ws.Protocol.{TunnelConnectData}
use go_webssh.Ws.Connect.{reject}

-- `tunnelPortAllowed`
unfoldable pub port_allowed : List ℤ → ℤ → Bool
unfolding any
port_allowed allowed_ports port = any (eq_ℤ port) allowed_ports

-- What reading the first frame of a tunnel returns: nothing, a frame that is no text, one whose message does not
-- decode or is of another type, or `tunnel-connect` with its payload if that decodes.
pub data FirstFrame : Type 0 where
  not_read not_text not_connect : FirstFrame
  tunnel_connect : Option TunnelConnectData → FirstFrame

-- Why `connect` returns an error: no frame, an error that the client is told, or a write that fails.
pub data ConnectFault : Type 0 where
  no_frame not_announced : ConnectFault
  told : ApiError → ConnectFault

abbrev tell : Code → String → ConnectFault
tell code message = told (reject code message)

-- The request of the first frame, trimmed and with the default port.
unfoldable pub read_request : FirstFrame → Result ConnectFault TunnelConnectData
read_request not_read = err no_frame
read_request not_text = err (tell Code.bad_request "first tunnel message must be tunnel-connect")
read_request not_connect = err (tell Code.bad_request "first tunnel message must be tunnel-connect")
read_request (tunnel_connect none) = err (tell Code.bad_request "invalid tunnel connect payload")
read_request (tunnel_connect (some request)) = ok (record {
  host = trim_space request.host;
  port = if eq_ℤ request.port (pos 0) then pos 22 else request.port;
})

-- A tunnel whose target is connected: what was asked for, and the address that was dialled.
pub record Tunnel : Type 0 where
  pub host : Text
  pub port : ℤ
  pub address : Text

-- The errors of the policy are told to the client.
abbrev or_tell : {A : Type 0} → Result ApiError A → Result ConnectFault A
or_tell (ok x) = ok x
or_tell (err e) = err (told e)

module _ (net : Netip) (policy : NetworkPolicy) (config : TunnelConfig) (dial : Text → Bool) where
  -- `connect` up to the target, from the first frame; `dial` tells which addresses can be connected.
  unfoldable pub dial_tunnel : FirstFrame → Result ConnectFault Tunnel
  dial_tunnel first = do
    request ← read_request first
    fail_if (is_empty request.host || ltb 253 (byte_len request.host))
        (tell Code.invalid_host "host is required and must not exceed 253 characters")
    fail_if (not (port_allowed config.allowed_ports request.port))
        (tell Code.tunnel_port_denied "target port is not allowed for TCP tunnels")
    address ← or_tell (resolve_allowed_host_port net policy request.host request.port)
    fail_if (not (dial address))
        (tell Code.tunnel_connect_failed "failed to connect to tunnel target")
    ok (record { host = request.host; port = request.port; address = address })

  -- `connect`: the target that it leaves open, and its error. `write_ok` tells whether `tunnel-connected` is
  -- written.
  unfoldable pub connect_tunnel : Bool → FirstFrame → Option Tunnel × Option ConnectFault
  unfolding dial_tunnel
  connect_tunnel write_ok first = elim (dial_tunnel first) [
    | err e ↦ (none, some e)
    | ok t ↦ (some t, (if write_ok then none else some not_announced))
  ]

-- `run`: the target that it leaves open. It returns on an error before it defers the close.
unfoldable pub left_open : Option Tunnel × Option ConnectFault → Option Tunnel
left_open (target, none) = none
left_open (target, some fault) = target

-- How a request for a tunnel is answered: refused, not upgraded, or with the target and the error of `connect`,
-- where no error means that the tunnel was relayed until its end.
pub data Answer : Type 0 where
  refused : ApiError → Answer
  not_upgraded : Answer
  run_with : Option Tunnel × Option ConnectFault → Answer

-- What a request for a tunnel leaves behind: the answer, the counter of tunnels while it is served and after the
-- deferred decrement, and the sessions of the web interface.
pub record Served : Type 0 where
  pub answer : Answer
  pub during : ℤ
  pub after : ℤ
  pub sessions : Store

abbrev turn_away : ℤ → Store → Code → String → Served
turn_away active seen code message = record {
  answer = refused (reject code message);
  during = active;
  after = active;
  sessions = seen;
}

module _ (crypto : Crypto) (auth : Authenticator) (net : Netip) (policy : NetworkPolicy)
    (allowed_origins : List Text) (config : TunnelConfig) (dial : Text → Bool) where
  -- `ServeTunnelHTTP`, on the request's cookie and headers, what the client then sends, and which steps succeed.
  unfoldable pub serve_tunnel :
      ℕ → Option Text → Request → Bool → Bool → FirstFrame → Store → ℤ → Served
  unfolding session_from_request check_origin reserve connect_tunnel
  serve_tunnel now cookie r upgrades write_ok first s active =
      let (info, seen) = session_from_request crypto auth now cookie s in
      if not (is_some info)
      then turn_away active seen Code.auth_required "authentication required"
      else if not config.enabled
      then turn_away active seen Code.tunnel_disabled "TCP tunnel is disabled"
      else if not (check_origin allowed_origins r)
      then turn_away active seen Code.ws_origin_denied "origin not allowed"
      else elim (reserve config.max_connections active) [
        | none ↦
            turn_away active seen Code.tunnel_limit_exceeded "maximum concurrent tunnels exceeded"
        | some reserved ↦ record {
          answer =
              if upgrades
              then run_with (connect_tunnel net policy config dial write_ok first)
              else not_upgraded;
          during = reserved;
          after = pred_ℤ reserved;
          sessions = seen;
        }
      ]
