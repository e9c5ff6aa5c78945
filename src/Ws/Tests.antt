-- ===== src/Ws/Tests.antt =====
-- Sessions on a small platform, and the theorems there.
use go_webssh.Base.{
  ◌+◌, ◌≤◌, ◌≡◌, refl, sym, true, false, none, some, List, [], ◌∷◌, ok, any, All, arith,
}
use go_webssh.Int.{pos, leb_ℤ}
use go_webssh.Text.{codes, text_eq, trim_space, byte_len, all_runes, contains}
use go_webssh.Net.{Netip, v4}
use go_webssh.Security.Policy.{
  NetworkPolicy, validate_host_port, resolve_allowed_host_port, resolve_host, is_localhost,
  strip_brackets, check_addr,
}
use go_webssh.Config.{default}
use go_webssh.Ssh.{
  Ssh, connect, check_key, dial_client, open_shell, probe_herdr, herdr_available, new_shell,
  start_shell, parse_signer,
}
use go_webssh.Ssh.Primitives
use go_webssh.Ws.Limit.{run, reserve}
use go_webssh.Ws.Limit.Laws.{run-counts_held, all_held, all_start}
use go_webssh.Ws.Protocol.{ConnectData}
use go_webssh.Ws.Connect.{
  prepare, trimmed, check_target, check_secrets, filled, check_terminal, is_name_rune,
}
use go_webssh.Ws.Connect.Laws.{IsSound}
use go_webssh.Ws.Session.{
  WsSession, Served, handle_connect, dial_session, settle, announce, cleanup, request_of, Frame,
  data_frame, control_frame, input_message, resize_message, disconnect_message, write_stdin,
  window_change, read_loop, handle_frame, handle_message,
}
use go_webssh.Ws.Session.Places.{handle_connect-cleanup, handle_connect-IsSound, IsHeld, Serves}
use go_webssh.Ws.Session.Frames.{read_loop-IsBounded, IsBounded, Ends}
use go_webssh.Ws.Session.Rebinding.{handle_connect-rebinds, BothPass}

-- Every host is 8.8.8.8, or 9.9.9.9 on the other platform.
abbrev sample_net : Netip
sample_net = record {
  parse_addr = λ s. some (v4 0x08080808);
  parse_prefix = λ s. none;
  addr_string = λ a. codes "8.8.8.8";
  lookup_ip = λ s. none;
}

abbrev other_net : Netip
other_net = record {
  parse_addr = λ s. some (v4 0x09090909);
  parse_prefix = λ s. none;
  addr_string = λ a. codes "9.9.9.9";
  lookup_ip = λ s. none;
}

abbrev sample_policy : NetworkPolicy
sample_policy = record { allow_private_ranges = false; deny_prefixes = []; allow_prefixes = [] }

abbrev sample_ssh : Ssh
sample_ssh = record {
  parse_key = λ k. ok 1;
  parse_key_with_passphrase = λ k p. ok 2;
  dial = λ addr user signer wait. ok 3;
  new_session = λ n c. some (4 + n);
  run = λ s command. true;
  stdin_pipe = λ s. true;
  stdout_pipe = λ s. true;
  stderr_pipe = λ s. true;
  request_pty = λ s term rows cols. true;
  shell = λ s. true;
  write = λ s text. true;
}

abbrev sample_data : ConnectData
sample_data = record {
  host = codes " h ";
  port = pos 0;
  username = codes "u";
  private_key = codes "k";
  passphrase = [];
  term = [];
  cols = pos 9;
  rows = pos 30;
  use_herdr = false;
  legacy_use_tmux = true;
  herdr_session = [];
  tmux_session = [];
}

abbrev prepared_data : ConnectData
prepared_data = record sample_data {
  host = codes "h";
  port = pos 22;
  term = codes "xterm-256color";
  cols = pos 80;
  use_herdr = true;
  herdr_session = codes "gowebssh-f";
}

abbrev new_session : WsSession
new_session = record {
  ssh = none;
  session_id = [];
  host = [];
  port = pos 0;
  username = [];
  connected = false;
}

prepare_runs : prepare (codes "f") sample_data ≡ ok prepared_data
unfolding prepare trimmed check_target check_secrets filled check_terminal is_name_rune trim_space
    byte_len all_runes
prepare_runs = refl

abbrev sample_served : Served
sample_served =
    handle_connect sample_ssh default.ssh (codes "id") true sample_net sample_policy (codes "f")
      (pos 4) new_session (some sample_data)

connects : sample_served.state.connected ≡ true
unfolding handle_connect dial_session settle announce reserve connect check_key dial_client
    open_shell probe_herdr herdr_available new_shell start_shell parse_signer validate_host_port
    resolve_allowed_host_port resolve_host is_localhost strip_brackets check_addr contains prepare
    trimmed check_target check_secrets filled check_terminal is_name_rune trim_space byte_len
    all_runes text_eq any
connects = refl

handle_connect-cleanup_example :
    IsHeld (pos 4) sample_served × ((cleanup sample_served.active sample_served.state).0 ≡ pos 4)
handle_connect-cleanup_example =
    handle_connect-cleanup sample_ssh default.ssh (codes "id") true sample_net sample_policy
      (codes "f") (pos 4) new_session (some sample_data) refl

handle_connect-IsSound_example :
    (raw : ConnectData) × (cd : ConnectData) × (some sample_data ≡ some raw)
    × (prepare (codes "f") raw ≡ ok cd)
    × IsSound cd
    × (validate_host_port sample_net sample_policy cd.host cd.port ≡ ok tt)
    × (leb_ℤ default.ssh.max_sessions (pos 4) ≡ false)
    × (ssh_session : Primitives.Session) × ((connect sample_ssh
          (request_of cd)
          default.ssh.connect_timeout).0
        ≡ ok ssh_session)
    × Serves cd ssh_session sample_served.state
handle_connect-IsSound_example =
    handle_connect-IsSound sample_ssh default.ssh (codes "id") true sample_net sample_policy
      (codes "f") (pos 4) new_session (some sample_data) refl connects

host_passes :
    (validate_host_port sample_net sample_policy (codes "h") (pos 22) ≡ ok tt)
    × (validate_host_port other_net sample_policy (codes "h") (pos 22) ≡ ok tt)
unfolding validate_host_port resolve_allowed_host_port resolve_host is_localhost strip_brackets
    check_addr contains trim_space text_eq any
host_passes = (refl, refl)

both_pass : BothPass sample_net other_net sample_policy (codes "f") sample_data
both_pass cd h =
    let host : prepared_data.host ≡ cd.host = ground (arith, prepare_runs, h) in
    let port : prepared_data.port ≡ cd.port = ground (arith, prepare_runs, h) in
    rw (sym host, sym port) host_passes

handle_connect-rebinds_example :
    sample_served
    ≡ handle_connect sample_ssh default.ssh
        (codes "id")
        true
        other_net
        sample_policy
        (codes "f")
        (pos 4)
        new_session
        (some sample_data)
handle_connect-rebinds_example =
    handle_connect-rebinds sample_ssh default.ssh (codes "id") true sample_net other_net
      sample_policy (codes "f") (pos 4) new_session sample_data both_pass

abbrev sample_frames : List Frame
sample_frames =
    data_frame 9 (some (input_message (some (codes "ls"))))
    ∷ control_frame
    ∷ data_frame 9 (some (resize_message (some (record { cols = pos 80; rows = pos 24 }))))
    ∷ []

frames_run :
    read_loop (λ t. true) sample_frames
    ≡ (write_stdin (codes "ls") ∷ window_change (pos 24) (pos 80) ∷ [])
unfolding read_loop handle_frame handle_message byte_len
frames_run = refl

read_loop-IsBounded_example : All IsBounded (read_loop (λ t. true) sample_frames)
read_loop-IsBounded_example = read_loop-IsBounded (λ t. true) sample_frames

disconnects : Ends (λ t. true) (data_frame 9 (some disconnect_message))
unfolding handle_frame handle_message
disconnects = refl

run-counts_held_example :
    let (ps, active) = run (pos 1) (0 ∷ 1 ∷ 1 ∷ 0 ∷ 0 ∷ 1 ∷ []) (all_start 2) (pos 0) in
    (active ≡ pos (all_held ps)) × (all_held ps ≤ 1)
run-counts_held_example = run-counts_held 1 2 (0 ∷ 1 ∷ 1 ∷ 0 ∷ 0 ∷ 1 ∷ [])
