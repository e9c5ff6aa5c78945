-- ===== src/Ws/Tunnel/Tests.antt =====
-- Tunnels on a small platform, and the theorems there.
use go_webssh.Base.{◌≡◌, refl, ◌⊎◌, ◌+◌, true, false, none, some, [], ◌∷◌, ok, any, Some, Bool}
use go_webssh.Int.{pos, leb_ℤ}
use go_webssh.Text.{Text, codes, text_eq, trim_space, byte_len, contains}
use go_webssh.Net.{Netip, v4, join_host_port, itoa_ℤ}
use go_webssh.Security.Policy.{
  NetworkPolicy, resolve_allowed_host_port, resolve_host, is_localhost, strip_brackets, check_addr,
}
use go_webssh.Dict.{lookup}
use go_webssh.Auth.Store.{Store, SessionInfo, hour}
use go_webssh.Auth.{login, session_from_request}
use go_webssh.Auth.Sessions.{Admits}
use go_webssh.Auth.Sample.{sample_crypto, sample_auth, zeros, sample_token, start}
use go_webssh.Config.{TunnelConfig, default}
use go_webssh.Ws.Limit.{reserve}
use go_webssh.Ws.Origin.{Request, check_origin}
use go_webssh.Ws.Origin.Laws.{IsOwn, Allows}
use go_webssh.Ws.Tunnel.{
  Tunnel, FirstFrame, tunnel_connect, dial_tunnel, connect_tunnel, read_request, port_allowed,
  serve_tunnel, Served, run_with, not_announced,
}
use go_webssh.Ws.Tunnel.Laws.{IsAsked, connect_tunnel_sound, serve_tunnel_sound}

-- Every host is 8.8.8.8.
abbrev sample_net : Netip
sample_net = record {
  parse_addr = λ s. some (v4 0x08080808);
  parse_prefix = λ s. none;
  addr_string = λ a. codes "8.8.8.8";
  lookup_ip = λ s. none;
}

abbrev sample_policy : NetworkPolicy
sample_policy = record { allow_private_ranges = false; deny_prefixes = []; allow_prefixes = [] }

abbrev dials : Text → Bool
dials address = true

abbrev enabled : TunnelConfig
enabled = record default.tunnel { enabled = true }

abbrev sample_tunnel : Tunnel
sample_tunnel = record { host = codes "h"; port = pos 22; address = codes "8.8.8.8:22" }

abbrev sample_first : FirstFrame
sample_first = tunnel_connect (some (record { host = codes " h"; port = pos 0 }))

dial_runs : dial_tunnel sample_net sample_policy enabled dials sample_first ≡ ok sample_tunnel
unfolding dial_tunnel read_request port_allowed resolve_allowed_host_port resolve_host is_localhost
    strip_brackets check_addr contains trim_space byte_len text_eq any join_host_port itoa_ℤ
dial_runs = refl

connect_runs :
    (connect_tunnel sample_net sample_policy enabled dials true sample_first
      ≡ (some sample_tunnel, none))
    × (connect_tunnel sample_net sample_policy enabled dials false sample_first
        ≡ (some sample_tunnel, some not_announced))
unfolding connect_tunnel dial_runs
connect_runs = (refl, refl)

connect_tunnel_sound_example :
    IsAsked sample_net sample_policy enabled dials sample_first sample_tunnel
connect_tunnel_sound_example =
    connect_tunnel_sound sample_net sample_policy enabled dials true sample_first sample_tunnel none
      (connect_runs.0)

abbrev logged_in : Store
logged_in = record {
  sessions =
      (
        sample_crypto.encode (zeros 32),
        record { username = codes "admin"; expires_at = start + hour },
      )
      ∷ [];
  ttl = pos hour;
}

abbrev from_origin : Request
from_origin = record {
  host = codes "web";
  origin = codes "https://web";
  forwarded_for = [];
  remote_addr = [];
  remote_host = none;
}

abbrev sample_served : Served
sample_served =
    serve_tunnel sample_crypto sample_auth sample_net sample_policy [] enabled dials start
      (some sample_token) from_origin true true sample_first logged_in (pos 2)

serve_runs : sample_served.answer ≡ run_with (some sample_tunnel, none)
unfolding serve_tunnel session_from_request login lookup check_origin reserve connect_runs
serve_runs = refl

serve_tunnel_sound_example :
    (value : Text) × (info : SessionInfo) × (some sample_token ≡ some value)
    × Admits sample_crypto sample_auth start logged_in value info
    × (true ≡ true)
    × ((codes "https://web" ≡ [])
        ⊎ IsOwn from_origin (codes "https://web")
        ⊎ Some (Allows (codes "https://web")) [])
    × (leb_ℤ (pos 5) (pos 2) ≡ false)
    × IsAsked sample_net sample_policy enabled dials sample_first sample_tunnel
    × (sample_served.during ≡ pos 3)
    × (sample_served.after ≡ pos 2)
serve_tunnel_sound_example =
    serve_tunnel_sound sample_crypto sample_auth sample_net sample_policy [] enabled dials start
      (some sample_token) from_origin true true sample_first logged_in (pos 2) sample_tunnel none
      serve_runs
