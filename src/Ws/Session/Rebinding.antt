-- ===== src/Ws/Session/Rebinding.antt =====
-- The address that `handleConnect` checks is not the one that the SSH client connects to.
use go_webssh.Base.{◌≡◌, refl, inl, inr, Bool, some, ok, Result-cases}
use go_webssh.Int.{ℤ}
use go_webssh.Text.{Text}
use go_webssh.Net.{Netip}
use go_webssh.Security.Policy.{NetworkPolicy, validate_host_port}
use go_webssh.Config.{SshConfig}
use go_webssh.Ssh.{Ssh}
use go_webssh.Ws.Protocol.{ConnectData}
use go_webssh.Ws.Connect.{prepare}
use go_webssh.Ws.Session.{WsSession, handle_connect}

-- Two resolvers under which the policy lets the host of every prepared request pass.
abbrev pub BothPass : Netip → Netip → NetworkPolicy → Text → ConnectData → Type 0
BothPass net other policy fresh raw =
    (cd : ConnectData)
    → prepare fresh raw ≡ ok cd
    → (validate_host_port net policy cd.host cd.port ≡ ok tt)
      × (validate_host_port other policy cd.host cd.port ≡ ok tt)

-- What handleConnect does for a host that passes does not depend on the address that was checked:
-- with any other resolver under which the host passes it does the same.
pub handle_connect-rebinds :
    (ssh : Ssh) (config : SshConfig) (id : Text) (write_ok : Bool) (net other : Netip)
    (policy : NetworkPolicy) (fresh : Text) (active : ℤ) (s : WsSession) (raw : ConnectData)
    → BothPass net other policy fresh raw
    → handle_connect ssh config id write_ok net policy fresh active s (some raw)
      ≡ handle_connect ssh config id write_ok other policy fresh active s (some raw)
unfolding handle_connect
handle_connect-rebinds ssh config id write_ok net other policy fresh active s raw h =
    elim (Result-cases (prepare fresh raw)) [
      | inr (e, fails) ↦ rw (handle_connect, fails) refl
      | inl (cd, prepared) ↦
          let (here, there) = h cd prepared in rw (handle_connect, prepared, here, there) refl
    ]
