-- ===== src/Ws/Session.antt =====
-- A terminal session of internal/ws/handler.go: `handleConnect`, `cleanup` and the loops of `run`.
pub mod Places
pub mod Frames
pub mod Rebinding
use go_webssh.Base.{
  ℕ, zero, suc, ◌+◌, ◌*◌, Bool, true, false, not, ◌&&◌, ◌||◌, Option, none, some, List, [], ◌∷◌,
  ◌++◌, String, Result, ok, err, if◌then◌else◌, ltb,
}
use go_webssh.Int.{ℤ, pos, suc_ℤ, pred_ℤ, out_of_range}
use go_webssh.Text.{Text, codes, byte_len}
use go_webssh.Code.{Code, ApiError}
use go_webssh.Net.{Netip}
use go_webssh.Security.Policy.{NetworkPolicy, validate_host_port}
use go_webssh.Config.{SshConfig}
use go_webssh.Ssh.{Ssh, ConnectRequest, SshEvent, close, connect}
use go_webssh.Ws.Limit.{reserve}
use go_webssh.Ws.Protocol.{
  ConnectData, ConnectedData, ResizeData, Reply, error_reply, connected_reply, pong_reply,
}
use go_webssh.Ws.Connect.{prepare, reject}
use go_webssh.Ssh.Primitives

-- `wsSession`, without the connection, the logger and the times
pub record WsSession : Type 0 where
  pub ssh : Option Primitives.Session
  pub session_id : Text
  pub host : Text
  pub port : ℤ
  pub username : Text
  pub connected : Bool

-- What a call leaves behind: the counter of sessions, the session, the replies, whether it returned
-- no error, and what was opened and closed of SSH.
pub record Served : Type 0 where
  pub active : ℤ
  pub state : WsSession
  pub sent : List Reply
  pub proceeds : Bool
  pub events : List SshEvent

-- `sendError`, and the return with an error
abbrev refuse : ℤ → WsSession → ApiError → List SshEvent → Served
refuse active s e events = record {
  active = active;
  state = s;
  sent = error_reply e ∷ [];
  proceeds = false;
  events = events;
}

abbrev pub request_of : ConnectData → ConnectRequest
request_of cd = record {
  host = cd.host;
  port = cd.port;
  username = cd.username;
  private_key = cd.private_key;
  passphrase = cd.passphrase;
  term = cd.term;
  cols = cd.cols;
  rows = cd.rows;
  use_herdr = cd.use_herdr;
  herdr_session = cd.herdr_session;
}

abbrev limit_exceeded : ApiError
limit_exceeded = reject Code.session_limit_exceeded "maximum concurrent sessions exceeded"

-- The session once it is connected, and its announcement, which may fail to be written.
unfoldable pub announce :
    Text → Bool → ℤ → WsSession → ConnectData → Primitives.Session → List SshEvent → Served
announce id write_ok active s cd ssh_session events =
    let name = if ssh_session.herdr_active then cd.herdr_session else [] in
    let data_of : ConnectedData = record {
      session_id = id;
      host = s.host;
      port = s.port;
      username = s.username;
      herdr_session = name;
      tmux_session = name;
    } in
    record {
      active = active;
      state = record s { ssh = some ssh_session; session_id = id; connected = true };
      sent = if write_ok then connected_reply data_of ∷ [] else [];
      proceeds = write_ok;
      events = events;
    }

-- What follows `sshclient.Connect`: a place that was reserved is given back where it failed.
unfoldable pub settle : Text → Bool → ℤ → WsSession → ConnectData → Primitives.Outcome → Served
unfolding announce
settle id write_ok reserved s cd (err e, events) = refuse (pred_ℤ reserved) s e events
settle id write_ok reserved s cd (ok ssh_session, events) =
    announce id write_ok reserved s cd ssh_session events

module _ (ssh : Ssh) (config : SshConfig) (id : Text) (write_ok : Bool) where
  -- `handleConnect` behind the checks: a place is reserved, and given back if there is no connection.
  unfoldable pub dial_session : ℤ → WsSession → ConnectData → Served
  dial_session active s cd =
      let target = record s { host = cd.host; port = cd.port; username = cd.username } in
      elim (reserve config.max_sessions active) [
        | none ↦ refuse active target limit_exceeded []
        | some reserved ↦
            settle id write_ok reserved target cd
              (connect ssh (request_of cd) config.connect_timeout)
      ]

  module _ (net : Netip) (policy : NetworkPolicy) (fresh : Text) where
    -- `handleConnect`, on the decoded payload
    unfoldable pub handle_connect : ℤ → WsSession → Option ConnectData → Served
    handle_connect active s payload = elim payload [
      | none ↦ refuse active s (reject Code.bad_request "invalid connect payload") []
      | some raw ↦ elim (prepare fresh raw) [
        | err e ↦ refuse active s e []
        | ok cd ↦ elim (validate_host_port net policy cd.host cd.port) [
          | err e ↦ refuse active s e []
          | ok done ↦ dial_session active s cd
        ]
      ]
    ]

-- `cleanup`: the counter, the session and what is closed of SSH.
unfoldable pub cleanup : ℤ → WsSession → ℤ × WsSession × List SshEvent
unfolding close
cleanup active s = (
  (if s.connected then pred_ℤ active else active),
  record s { ssh = none; connected = false },
  elim s.ssh [ none ↦ [] | some ssh_session ↦ close ssh_session ],
)

-- A message that a client sends, by its type, with the payload if it decodes.
pub data ClientMessage : Type 0 where
  connect_message : Option ConnectData → ClientMessage
  input_message : Option Text → ClientMessage
  resize_message : Option ResizeData → ClientMessage
  ping_message : Option ℕ → ClientMessage
  disconnect_message : ClientMessage
  other_message : ClientMessage

-- What `ReadMessage` returns: a frame that is neither text nor binary, or one with its size and the
-- message in it if it decodes. The list of frames ends where reading fails.
pub data Frame : Type 0 where
  control_frame : Frame
  data_frame : ℕ → Option ClientMessage → Frame

-- How the wait for the first message ends.
pub data First : Type 0 where
  hung_up : First
  rejected : String → First
  connects : Option ConnectData → First

-- The loop of `run` up to `handleConnect`
unfoldable pub await_connect : List Frame → First
await_connect [] = hung_up
await_connect (control_frame ∷ frames) = await_connect frames
await_connect (data_frame size message ∷ frames) =
    if ltb (256 * 1024) size then rejected "message too large" else elim message [
      | none ↦ rejected "invalid message"
      | some (connect_message payload) ↦ connects payload
      | some _ ↦ rejected "first message must be connect"
    ]

-- What a message does to the shell and to the client.
pub data Action : Type 0 where
  write_stdin : Text → Action
  window_change : ℤ → ℤ → Action
  send : Reply → Action

-- One message of the read loop: what it does, and whether the loop ends with it. `stdin_ok` tells
-- whether the shell takes the text.
unfoldable pub handle_message : (Text → Bool) → ClientMessage → List Action × Bool
handle_message stdin_ok (input_message (some text)) =
    if ltb (64 * 1024) (byte_len text)
    then (send (error_reply (reject Code.bad_request "input too large")) ∷ [], false)
    else if stdin_ok text
    then (write_stdin text ∷ [], false)
    else ([], true)
handle_message stdin_ok (resize_message (some size)) =
    if out_of_range 5 200 size.rows || out_of_range 20 500 size.cols
    then ([], false)
    else (window_change size.rows size.cols ∷ [], false)
handle_message stdin_ok (ping_message (some sent_at)) = (send (pong_reply sent_at) ∷ [], false)
handle_message stdin_ok disconnect_message = ([], true)
handle_message stdin_ok _ = ([], false)

-- One frame of the read loop.
unfoldable pub handle_frame : (Text → Bool) → Frame → List Action × Bool
unfolding handle_message
handle_frame stdin_ok control_frame = ([], false)
handle_frame stdin_ok (data_frame size message) =
    if ltb (64 * 1024 + 2048) size
    then (send (error_reply (reject Code.bad_request "message too large")) ∷ [], true)
    else elim message [ none ↦ ([], false) | some m ↦ handle_message stdin_ok m ]

-- The read loop: what it does, in order.
unfoldable pub read_loop : (Text → Bool) → List Frame → List Action
unfolding handle_frame
read_loop stdin_ok [] = []
read_loop stdin_ok (frame ∷ frames) =
    let (actions, ends) = handle_frame stdin_ok frame in
    let later = read_loop stdin_ok frames in if ends then actions else actions ++ later
