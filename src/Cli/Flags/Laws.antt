-- ===== src/Cli/Flags/Laws.antt =====
-- What the options of a tunnel are like, and what the client then makes of them.
use go_webssh.Base.{
  ◌≡◌, refl, sym, ap, inl, inr, Bool, true, false, [], ◌∷◌, ok, arith, is_empty, Bool-cases,
  Result-cases, List, ◌||◌, not, ◌∙◌,
}
use go_webssh.Int.{InRange}
use go_webssh.Text.{Text, codes, trim_space}
use go_webssh.Cli.Destination.{parse_destination}
use go_webssh.Cli.Tunnel.{Options, check_options}
use go_webssh.Cli.Flags.{
  Flags, Environment, flag_or_env, read_args, env_port_for, settle_port, tunnel_target,
  resolve_tunnel_options, read_port, tunnel_port, with_destination, stdio_not_boolean, env_port,
}

settle_port-IsPlaced :
    (opt o : Options) → settle_port opt ≡ ok o → (o.host ≡ opt.host) × InRange 1 65535 o.port
unfolding settle_port
settle_port-IsPlaced opt o h = ground (arith, h)

env_port_for-host :
    (getenv : Environment) (opt o : Options) (given : Bool)
    → env_port_for getenv opt given ≡ ok o
    → o.host ≡ opt.host
unfolding env_port_for
env_port_for-host getenv opt o true h = ground (arith, h)
env_port_for-host getenv opt o false h =
    elim (Bool-cases (is_empty (trim_space (getenv (codes "GOWEBSSH_TARGET_PORT"))))) [
      | inl unset ↦ ground (arith, h, unset)
      | inr set ↦
          elim (Result-cases
            (read_port (trim_space (getenv (codes "GOWEBSSH_TARGET_PORT"))) env_port)) [
              | inl (port, reads) ↦ ground (arith, h, set, reads)
              | inr (e, fails) ↦ absurd (ground (arith, h, set, fails))
            ]
    ]

-- The flags say that a port is given.
abbrev port_given : Flags → Bool
port_given f = f.explicit (codes "p") || f.explicit (codes "port")

tunnel_target-IsPlaced :
    (f : Flags) (opt o : Options) (getenv : Environment)
    → tunnel_target f opt getenv ≡ ok o
    → (is_empty o.host ≡ false) × InRange 1 65535 o.port
unfolding tunnel_target
tunnel_target-IsPlaced f opt o getenv h =
    elim (Bool-cases (f.list_saved || not (is_empty f.saved))) [
      | inl saved ↦ absurd (ground (arith, h, saved))
      | inr plain ↦ elim (Result-cases (read_args getenv opt (port_given f) f.args)) [
        | inr (e, fails) ↦ absurd (ground (arith, h, plain, fails))
        | inl ((named, given), reads) ↦ elim (Bool-cases (is_empty named.host)) [
          | inl blank ↦ absurd (ground (arith, h, plain, reads, blank))
          | inr full ↦ elim (Result-cases (env_port_for getenv named given)) [
            | inr (e, fails) ↦ absurd (ground (arith, h, plain, reads, full, fails))
            | inl (placed, keeps) ↦
                let settles : settle_port placed ≡ ok o =
                  ground (arith, h, plain, reads, full, keeps) in
                let (same, bounds) = settle_port-IsPlaced placed o settles in
                (
                  ap is_empty (same ∙ env_port_for-host getenv named placed given keeps) ∙ full,
                  bounds,
                )
          ]
        ]
      ]
    ]

-- With a port given, the arguments are read with one.
read_args-given :
    (getenv : Environment) (opt named : Options) (given : Bool) (args : List Text)
    → read_args getenv opt true args ≡ ok (named, given)
    → given ≡ true
unfolding read_args with_destination
read_args-given getenv opt named given [] h = ground (arith, h)
read_args-given getenv opt named given (a ∷ []) h = elim (Result-cases (parse_destination a)) [
  | inr (e, fails) ↦ absurd (ground (arith, h, fails))
  | inl (d, reads) ↦ ground (arith, h, reads)
]
read_args-given getenv opt named given (a ∷ p ∷ []) h =
    elim (Result-cases (read_port p tunnel_port)) [
      | inr (e, fails) ↦ absurd (ground (arith, h, fails))
      | inl (port, reads) ↦ ground (arith, h, reads)
    ]
read_args-given getenv opt named given (a ∷ b ∷ c ∷ args) h = absurd (ground (arith, h))

-- Of the environment, the arguments read the host alone.
read_args-agree :
    (getenv other : Environment) (opt : Options) (given : Bool) (args : List Text)
    → getenv (codes "GOWEBSSH_TARGET_HOST") ≡ other (codes "GOWEBSSH_TARGET_HOST")
    → read_args getenv opt given args ≡ read_args other opt given args
unfolding read_args
read_args-agree getenv other opt given [] same = rw same refl
read_args-agree getenv other opt given (a ∷ []) same = refl
read_args-agree getenv other opt given (a ∷ p ∷ []) same = refl
read_args-agree getenv other opt given (a ∷ b ∷ c ∷ args) same = refl

-- A tunnel that the command line asks for has a host and a port from 1 to 65535.
resolve_tunnel_options-IsPlaced :
    (f : Flags) (opt o : Options) (getenv : Environment)
    → resolve_tunnel_options f opt getenv ≡ ok (o, true)
    → (is_empty o.host ≡ false) × InRange 1 65535 o.port
unfolding resolve_tunnel_options
resolve_tunnel_options-IsPlaced f opt o getenv h =
    elim (Result-cases (
      flag_or_env (f.explicit (codes "stdio")) f.stdio (getenv (codes "GOWEBSSH_STDIO"))
        stdio_not_boolean)) [
          | inr (e, fails) ↦ absurd (ground (arith, h, fails))
          | inl (false, off) ↦ absurd (ground (arith, h, off))
          | inl (true, on) ↦ elim (Result-cases (tunnel_target f opt getenv)) [
            | inr (e, fails) ↦ absurd (ground (arith, h, on, fails))
            | inl (placed, reads) ↦
                tunnel_target-IsPlaced f opt o getenv (ground (arith, h, on, reads))
          ]
        ]

-- The client asks for a tunnel to just the host and the port that the command line resolved to, if the host has more than
-- spaces and the address and the account of the server are given.
pub check_options-resolve_tunnel_options :
    (f : Flags) (opt o : Options) (getenv : Environment)
    → resolve_tunnel_options f opt getenv ≡ ok (o, true)
    → is_empty (trim_space o.server_url) ≡ false
    → is_empty (trim_space o.web_user) ≡ false
    → is_empty o.web_password ≡ false
    → is_empty (trim_space o.host) ≡ false
    → check_options o ≡ ok (record { host = trim_space o.host; port = o.port })
unfolding check_options
check_options-resolve_tunnel_options f opt o getenv h url user password host =
    let (_, bounds) = resolve_tunnel_options-IsPlaced f opt o getenv h in
    ground (arith, bounds, url, user, password, host)

-- A port on the command line takes precedence: then two environments that agree on the other variables give the same.
pub resolve_tunnel_options_explicit :
    (f : Flags) (opt : Options) (getenv other : Environment)
    → port_given f ≡ true
    → getenv (codes "GOWEBSSH_STDIO") ≡ other (codes "GOWEBSSH_STDIO")
    → getenv (codes "GOWEBSSH_TARGET_HOST") ≡ other (codes "GOWEBSSH_TARGET_HOST")
    → resolve_tunnel_options f opt getenv ≡ resolve_tunnel_options f opt other
unfolding resolve_tunnel_options tunnel_target env_port_for
resolve_tunnel_options_explicit f opt getenv other given stdio host =
    elim (Result-cases (read_args getenv opt true f.args)) [
      | inr (e, fails) ↦
          rw (given, stdio, sym (read_args-agree getenv other opt true f.args host), fails) refl
      | inl ((named, was), reads) ↦
          rw
            (
              given,
              stdio,
              sym (read_args-agree getenv other opt true f.args host),
              reads,
              read_args-given getenv opt named was f.args reads,
            )
            refl
    ]
