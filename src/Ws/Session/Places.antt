-- ===== src/Ws/Session/Places.antt =====
-- The places of sessions, and what a connected session rests on.
use go_webssh.Base.{
  ◌≡◌, refl, ◌⊎◌, inl, inr, Bool, true, false, Option, none, some, ok, err, arith, Result-cases,
  Option-cases,
}
use go_webssh.Int.{ℤ, suc_ℤ, pred_ℤ-suc_ℤ, leb_ℤ}
use go_webssh.Text.{Text}
use go_webssh.Net.{Netip}
use go_webssh.Security.Policy.{NetworkPolicy, validate_host_port}
use go_webssh.Config.{SshConfig}
use go_webssh.Ssh.{Ssh, connect}
use go_webssh.Ssh.Primitives
use go_webssh.Ws.Limit.{reserve}
use go_webssh.Ws.Protocol.{ConnectData}
use go_webssh.Ws.Connect.{prepare}
use go_webssh.Ws.Connect.Laws.{IsSound, prepare-IsSound}
use go_webssh.Ws.Session.{
  WsSession, Served, request_of, announce, settle, dial_session, handle_connect, cleanup,
}

-- The counter is higher by one exactly if the session is marked as connected.
abbrev pub IsHeld : ℤ → Served → Type 0
IsHeld before out =
    ((out.active ≡ before) × (out.state.connected ≡ false))
    ⊎ ((out.active ≡ suc_ℤ before) × (out.state.connected ≡ true))

reserve-some : (limit active after : ℤ) → reserve limit active ≡ some after → after ≡ suc_ℤ active
unfolding reserve
reserve-some limit active after h = ground arith

settle-IsHeld :
    (id : Text) (write_ok : Bool) (active : ℤ) (s : WsSession) (cd : ConnectData)
    (out : Primitives.Outcome)
    → s.connected ≡ false
    → IsHeld active (settle id write_ok (suc_ℤ active) s cd out)
unfolding settle announce
settle-IsHeld id write_ok active s cd (err e, closed) h = inl (pred_ℤ-suc_ℤ active, h)
settle-IsHeld id write_ok active s cd (ok ssh_session, closed) h = inr (refl, refl)

-- The session is that of the client, for the target that was asked for.
abbrev pub Serves : ConnectData → Primitives.Session → WsSession → Type 0
Serves cd ssh_session after =
    (after.ssh ≡ some ssh_session)
    × (after.host ≡ cd.host)
    × (after.port ≡ cd.port)
    × (after.username ≡ cd.username)

settle_sound :
    (id : Text) (write_ok : Bool) (reserved : ℤ) (s : WsSession) (cd : ConnectData)
    (out : Primitives.Outcome)
    → s.connected ≡ false
    → (settle id write_ok reserved s cd out).state.connected ≡ true
    → (ssh_session : Primitives.Session) × (out.0 ≡ ok ssh_session)
      × (let after = (settle id write_ok reserved s cd out).state in
          (after.ssh ≡ some ssh_session)
          × (after.host ≡ s.host)
          × (after.port ≡ s.port)
          × (after.username ≡ s.username))
unfolding settle announce
settle_sound id write_ok reserved s cd (err e, closed) h connected = absurd (ground arith)
settle_sound id write_ok reserved s cd (ok ssh_session, closed) h connected =
    (ssh_session, refl, (refl, refl, refl, refl))

reserve-free :
    (limit active after : ℤ) → reserve limit active ≡ some after → leb_ℤ limit active ≡ false
unfolding reserve
reserve-free limit active after h = ground arith

module _ (ssh : Ssh) (config : SshConfig) (id : Text) (write_ok : Bool) where
  dial_session-IsHeld :
      (active : ℤ) (s : WsSession) (cd : ConnectData)
      → s.connected ≡ false
      → IsHeld active (dial_session ssh config id write_ok active s cd)
  unfolding dial_session
  dial_session-IsHeld active s cd h = elim (Option-cases (reserve config.max_sessions active)) [
    | inl full ↦ rw (dial_session, full) (inl (refl, h))
    | inr (reserved, place) ↦
        rw (dial_session, place, reserve-some config.max_sessions active reserved place)
          (settle-IsHeld id write_ok active _ cd _ h)
  ]

  dial_session_sound :
      (active : ℤ) (s : WsSession) (cd : ConnectData)
      → s.connected ≡ false
      → (dial_session ssh config id write_ok active s cd).state.connected ≡ true
      → (leb_ℤ config.max_sessions active ≡ false)
        × (ssh_session : Primitives.Session) × ((connect ssh
              (request_of cd)
              config.connect_timeout).0
            ≡ ok ssh_session)
        × Serves cd ssh_session (dial_session ssh config id write_ok active s cd).state
  unfolding dial_session
  dial_session_sound active s cd h connected =
      elim (Option-cases (reserve config.max_sessions active)) [
        | inl full ↦ absurd (ground arith)
        | inr (reserved, place) ↦
            let (ssh_session, dialled, serves) =
              settle_sound id write_ok reserved
                (record s { host = cd.host; port = cd.port; username = cd.username }) cd
                (connect ssh (request_of cd) config.connect_timeout) h (ground arith) in
            (
              reserve-free config.max_sessions active reserved place,
              ssh_session,
              dialled,
              rw (dial_session, place) serves,
            )
      ]

  module _ (net : Netip) (policy : NetworkPolicy) (fresh : Text) where
    handle_connect-IsHeld :
        (active : ℤ) (s : WsSession) (payload : Option ConnectData)
        → s.connected ≡ false
        → IsHeld active (handle_connect ssh config id write_ok net policy fresh active s payload)
    unfolding handle_connect
    handle_connect-IsHeld active s none h = inl (refl, h)
    handle_connect-IsHeld active s (some raw) h = elim (Result-cases (prepare fresh raw)) [
      | inr (e, fails) ↦ rw (handle_connect, fails) (inl (refl, h))
      | inl (cd, prepared) ↦ elim (Result-cases (validate_host_port net policy cd.host cd.port)) [
        | inr (e, fails) ↦ rw (handle_connect, prepared, fails) (inl (refl, h))
        | inl (done, passes) ↦
            rw (handle_connect, prepared, passes) (dial_session-IsHeld active s cd h)
      ]
    ]

    -- However handleConnect ends for a new session, the counter of sessions is higher by one exactly if
    -- the session is marked as connected, and cleanup brings it back to what it was.
    pub handle_connect-cleanup :
        (active : ℤ) (s : WsSession) (payload : Option ConnectData)
        → s.connected ≡ false
        → let out = handle_connect ssh config id write_ok net policy fresh active s payload in
          IsHeld active out × ((cleanup out.active out.state).0 ≡ active)
    unfolding cleanup
    handle_connect-cleanup active s payload h =
        let held = handle_connect-IsHeld active s payload h in
        (held, ground (arith, held, pred_ℤ-suc_ℤ active))

    -- A session that handleConnect connects passed every check: the request is what the checks made of the payload,
    -- its host passed the network policy, a place was free, the SSH client connected for it, and the session is
    -- that of the client, with the host, the port and the user of the request.
    pub handle_connect-IsSound :
        (active : ℤ) (s : WsSession) (payload : Option ConnectData)
        → s.connected ≡ false
        → (handle_connect ssh config id write_ok net policy fresh active s payload).state.connected
          ≡ true
        → (raw : ConnectData) × (cd : ConnectData) × (payload ≡ some raw)
          × (prepare fresh raw ≡ ok cd)
          × IsSound cd
          × (validate_host_port net policy cd.host cd.port ≡ ok tt)
          × (leb_ℤ config.max_sessions active ≡ false)
          × (ssh_session : Primitives.Session) × ((connect ssh
                (request_of cd)
                config.connect_timeout).0
              ≡ ok ssh_session)
          × Serves cd ssh_session
              (handle_connect ssh config id write_ok net policy fresh active s payload).state
    unfolding handle_connect
    handle_connect-IsSound active s none h connected = absurd (ground arith)
    handle_connect-IsSound active s (some raw) h connected =
        elim (Result-cases (prepare fresh raw)) [
          | inr (e, fails) ↦ absurd (ground arith)
          | inl (cd, prepared) ↦
              elim (Result-cases (validate_host_port net policy cd.host cd.port)) [
                | inr (e, fails) ↦ absurd (ground arith)
                | inl (done, passes) ↦
                    let (free, ssh_session, dialled, serves) =
                      dial_session_sound active s cd h (ground arith) in
                    (
                      raw,
                      cd,
                      refl,
                      prepared,
                      prepare-IsSound fresh raw cd prepared,
                      passes,
                      free,
                      ssh_session,
                      dialled,
                      rw (handle_connect, prepared, passes) serves,
                    )
              ]
        ]
