-- ===== src/Ws/Tunnel/Laws.antt =====
-- Which tunnels internal/ws/tunnel.go opens.
use go_webssh.Base.{
  ℕ, Option-cases, [], ◌≤◌, ◌≡◌, ◌≢◌, refl, ap, ◌∙◌, ◌⊎◌, Option, some, none, Bool-cases, inl, inr,
  Bool, true, false, List, ok, arith, is_empty, any_iff, Some, Some-map, Result-cases,
}
use go_webssh.Int.{ℤ, pos, eq_ℤ, eq_of_parts, suc_ℤ, leb_ℤ, pred_ℤ-suc_ℤ}
use go_webssh.Text.{Text, byte_len, trim_space}
use go_webssh.Ws.Protocol.{TunnelConnectData}
use go_webssh.Net.{Netip}
use go_webssh.Security.Policy.{NetworkPolicy, resolve_allowed_host_port}
use go_webssh.Config.{TunnelConfig}
use go_webssh.Ws.Limit.{reserve}
use go_webssh.Auth.Primitives.{Crypto}
use go_webssh.Auth.Store.{Store, SessionInfo}
use go_webssh.Auth.{Authenticator, session_from_request}
use go_webssh.Auth.Sessions.{Admits, session_from_request_sound}
use go_webssh.Ws.Origin.{Request, check_origin}
use go_webssh.Ws.Origin.Laws.{IsOwn, Allows, check_origin_iff}
use go_webssh.Ws.Tunnel.{
  FirstFrame, tunnel_connect, not_read, not_text, not_connect, ConnectFault, read_request,
  port_allowed, Tunnel, dial_tunnel, connect_tunnel, run_with, serve_tunnel,
}

port_allowed_sound :
    (ports : List ℤ) (port : ℤ) → port_allowed ports port ≡ true → Some (λ q. port ≡ q) ports
unfolding port_allowed
port_allowed_sound ports port h =
    Some-map _ _ (λ q e. ground (arith, eq_of_parts port q)) ports ((any_iff (eq_ℤ port) ports).0 h)

-- The target is the one that the first frame asks for, its address is what the network policy has resolved and let
-- pass, and its port is an allowed one.
abbrev pub IsAsked :
    Netip → NetworkPolicy → TunnelConfig → (Text → Bool) → FirstFrame → Tunnel → Type 0
IsAsked net policy config dial first t =
    (request : TunnelConnectData) × (first ≡ tunnel_connect (some request))
    × (t.host ≡ trim_space request.host)
    × (((request.port ≡ pos 0) × (t.port ≡ pos 22))
        ⊎ ((request.port ≢ pos 0) × (t.port ≡ request.port)))
    × (resolve_allowed_host_port net policy t.host t.port ≡ ok t.address)
    × (dial t.address ≡ true)
    × Some (λ q. t.port ≡ q) config.allowed_ports
    × (is_empty t.host ≡ false)
    × (byte_len t.host ≤ 253)

read_request-asked :
    (first : FirstFrame) (host : Text) (port : ℤ)
    → read_request first ≡ ok (record { host = host; port = port })
    → (request : TunnelConnectData) × (first ≡ tunnel_connect (some request))
      × (host ≡ trim_space request.host)
      × (((request.port ≡ pos 0) × (port ≡ pos 22))
          ⊎ ((request.port ≢ pos 0) × (port ≡ request.port)))
unfolding read_request
read_request-asked not_read host port h = absurd (ground (arith, h))
read_request-asked not_text host port h = absurd (ground (arith, h))
read_request-asked not_connect host port h = absurd (ground (arith, h))
read_request-asked (tunnel_connect none) host port h = absurd (ground (arith, h))
read_request-asked (tunnel_connect (some request)) host port h = (
  request,
  refl,
  ground (arith, h),
  (elim (Bool-cases (eq_ℤ request.port (pos 0))) [
    | inl default ↦
        inl (eq_of_parts request.port (pos 0) (ground arith), ground (arith, h, default))
    | inr given ↦
        inr (λ e. ground (arith, ap (λ p. eq_ℤ p (pos 0)) e, given), ground (arith, h, given))
  ]),
)

reserve-parts :
    (limit active reserved : ℤ)
    → reserve limit active ≡ some reserved
    → (leb_ℤ limit active ≡ false) × (reserved ≡ suc_ℤ active)
unfolding reserve
reserve-parts limit active reserved h = ground arith

module _ (net : Netip) (policy : NetworkPolicy) (config : TunnelConfig) (dial : Text → Bool) where
  dial_tunnel-IsAsked :
      (first : FirstFrame) (t : Tunnel)
      → dial_tunnel net policy config dial first ≡ ok t
      → IsAsked net policy config dial first t
  unfolding dial_tunnel
  dial_tunnel-IsAsked first t h = elim (Result-cases (read_request first)) [
    | inr (e, fails) ↦ absurd (ground arith)
    | inl (request, read) ↦
        elim (Result-cases (resolve_allowed_host_port net policy request.host request.port)) [
          | inr (e, fails) ↦ absurd (ground arith)
          | inl (address, passes) ↦
              let (asked, same, host, port) =
                read_request-asked first request.host request.port read in
              let named : t.host ≡ request.host = ground arith in
              let at : t.port ≡ request.port = ground arith in
              let (resolves, dials, allowed, full, short) : (resolve_allowed_host_port net policy
                      t.host t.port
                    ≡ ok t.address)
                  × (dial t.address ≡ true)
                  × Some (λ q. t.port ≡ q) config.allowed_ports
                  × (is_empty t.host ≡ false)
                  × (byte_len t.host ≤ 253) =
                ground (arith, port_allowed_sound config.allowed_ports request.port) in
              (asked, same, named ∙ host, rw at port, resolves, dials, allowed, full, short)
        ]
  ]

  -- A target is connected, whether the client can then be told or not, only if the first frame asked for its host
  -- and port, 22 where it named none; the address that is dialled is the one that the network policy has resolved
  -- and let pass for them, the port is one of those allowed, and the host has from 1 to 253 bytes.
  pub connect_tunnel_sound :
      (write_ok : Bool) (first : FirstFrame) (t : Tunnel) (fault : Option ConnectFault)
      → connect_tunnel net policy config dial write_ok first ≡ (some t, fault)
      → IsAsked net policy config dial first t
  unfolding connect_tunnel
  connect_tunnel_sound write_ok first t fault h =
      elim (Result-cases (dial_tunnel net policy config dial first)) [
        | inr (e, fails) ↦ absurd (ground (arith, h, fails))
        | inl (dialled, runs) ↦ dial_tunnel-IsAsked first t (ground (arith, h, runs))
      ]

module _ (crypto : Crypto) (auth : Authenticator) (net : Netip) (policy : NetworkPolicy)
    (origins : List Text) (config : TunnelConfig) (dial : Text → Bool) where
  -- A request makes the server connect a target only if its cookie carries a session that is sealed or signed under
  -- the secret and is alive, tunnels are enabled, its origin is its own host's or an allowed one or none, the counter
  -- was below the limit and is higher by one meanwhile, and the target is the one that the first frame asks for and
  -- that the network policy lets pass; afterwards the counter is what it was.
  pub serve_tunnel_sound :
      (now : ℕ) (cookie : Option Text) (r : Request) (upgrades write_ok : Bool) (first : FirstFrame)
      (s : Store) (active : ℤ) (t : Tunnel) (fault : Option ConnectFault)
      → (serve_tunnel crypto auth net policy origins config dial now cookie r upgrades write_ok
          first s active).answer
        ≡ run_with (some t, fault)
      → let out =
          serve_tunnel crypto auth net policy origins config dial now cookie r upgrades write_ok
            first s active in
        (value : Text) × (info : SessionInfo) × (cookie ≡ some value)
        × Admits crypto auth now s value info
        × (config.enabled ≡ true)
        × ((r.origin ≡ []) ⊎ IsOwn r r.origin ⊎ Some (Allows r.origin) origins)
        × (leb_ℤ config.max_connections active ≡ false)
        × IsAsked net policy config dial first t
        × (out.during ≡ suc_ℤ active)
        × (out.after ≡ active)
  unfolding serve_tunnel
  serve_tunnel_sound now none r upgrades write_ok first s active t fault h =
      absurd (unfold session_from_request in ground (arith, h))
  serve_tunnel_sound now (some value) r upgrades write_ok first s active t fault h =
      elim (Option-cases (session_from_request crypto auth now (some value) s).0) [
        | inl unknown ↦ absurd (ground (arith, h, unknown))
        | inr (info, known) ↦ elim (Option-cases (reserve config.max_connections active)) [
          | inl full ↦ absurd (ground (arith, h, known, full))
          | inr (reserved, place) ↦
              let connects : connect_tunnel net policy config dial write_ok first
                  ≡ (some t, fault) =
                ground (arith, h, known, place) in
              let origin : check_origin origins r ≡ true = ground (arith, h, known, place) in
              let enabled : config.enabled ≡ true = ground (arith, h, known, place) in
              let (free, held) = reserve-parts config.max_connections active reserved place in
              (
                value,
                info,
                refl,
                session_from_request_sound crypto auth now value s info known,
                enabled,
                (check_origin_iff origins r).0 origin,
                free,
                connect_tunnel_sound net policy config dial write_ok first t fault connects,
                ground (arith, known, place, origin, enabled, held),
                ground (arith, known, place, origin, enabled, held, pred_ℤ-suc_ℤ active),
              )
        ]
      ]
