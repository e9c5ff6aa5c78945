-- ===== src/Cli/Tunnel/Tests.antt =====
-- A tunnel at concrete bytes, and the theorems there.
use go_webssh.Base.{◌≡◌, refl, true, some, [], ◌∷◌, ok, err, length, take, map}
use go_webssh.Int.{pos}
use go_webssh.Text.{codes, text_eq, trim_space}
use go_webssh.Ws.Relay.{Writer, copy_to_target, write_all}
use go_webssh.Ws.Relay.Back.{eof, Reads, more, finish, copy_from_target}
use go_webssh.Cli.Tunnel.{
  copy_input, copy_end, copy_output, Options, Link, ServerFrame, bytes_frame, notice_frame,
  control_frame, connection_ended, open_tunnel, check_options, wait_connected, port_range,
}
use go_webssh.Cli.Tunnel.Delivery.{closed_carries_all}
use go_webssh.Cli.Tunnel.Complete.{IsHonest, all_sent, tunnel_delivers, IsComplete, received}

-- A writer that takes two bytes at a time, or the last one.
abbrev two_bytes : Writer
two_bytes n (a ∷ b ∷ payload) = some 2
two_bytes n payload = some (length payload)

two_bytes-IsHonest : IsHonest two_bytes
two_bytes-IsHonest n b [] = (0, refl)
two_bytes-IsHonest n b (c ∷ bs) = (1, refl)

abbrev typed : Reads
typed = more (1 ∷ 2 ∷ 3 ∷ []) (more [] (finish (4 ∷ []) eof))

tunnel_delivers_example :
    IsComplete
      (1 ∷ 2 ∷ 3 ∷ 4 ∷ [])
      (copy_to_target two_bytes true 0 ((copy_input all_sent 0 typed).0))
    × (copy_output two_bytes 0 (map received ((copy_from_target all_sent 0 typed).0))
        ≡ (1 ∷ 2 ∷ 3 ∷ 4 ∷ [], connection_ended))
tunnel_delivers_example =
    tunnel_delivers two_bytes two_bytes typed typed two_bytes-IsHonest two_bytes-IsHonest refl

closed_carries_all_example :
    (copy_to_target two_bytes true 0 (take 3 ((copy_input all_sent 0 typed).0))).to_target
    ≡ 1 ∷ 2 ∷ 3 ∷ 4 ∷ []
unfolding copy_to_target write_all copy_input copy_end text_eq
closed_carries_all_example = closed_carries_all two_bytes true all_sent 0 typed 3 0 refl

abbrev options : Options
options = record {
  server_url = codes "https://w";
  web_user = codes "u";
  web_password = codes "p";
  host = codes " db ";
  port = pos 0;
}

abbrev connected : ServerFrame
connected =
    notice_frame (some (record { kind = codes "tunnel-connected"; code = []; message = [] }))

abbrev link : Link
link = record {
  client_ok = true;
  login_ok = true;
  dial_ok = true;
  send_ok = true;
  frames = control_frame ∷ connected ∷ bytes_frame (7 ∷ []) ∷ [];
}

open_runs :
    open_tunnel options link
    ≡ ok (record { host = codes "db"; port = pos 22 }, bytes_frame (7 ∷ []) ∷ [])
unfolding open_tunnel check_options wait_connected text_eq trim_space
open_runs = refl

port_runs : open_tunnel (record options { port = pos 65536 }) link ≡ err port_range
unfolding open_tunnel check_options trim_space
port_runs = refl
