-- ===== src/Cli/Tunnel.antt =====
-- The tunnel of internal/cli/tunnel.go, for the ProxyCommand of OpenSSH: `RunTunnel`, `waitTunnelConnected`, and
-- the copies of input and output.
pub mod Delivery
pub mod Complete
mod Tests
use go_webssh.Base.{
  ℕ, suc, ◌+◌, Bool, true, false, not, ◌||◌, Option, none, some, List, [], ◌∷◌, ◌++◌, Result, ok,
  err, ◌>>=◌, ◌>>◌, fail_if, if◌then◌else◌, length, is_empty,
}
use go_webssh.Int.{ℤ, pos, eq_ℤ, out_of_range}
use go_webssh.Text.{Text, codes, text_eq, trim_space}
use go_webssh.Auth.Primitives.{Bytes}
use go_webssh.Ws.Protocol.{TunnelConnectData}
use go_webssh.Ws.Relay.{Writer, Ending, done, write_all, TunnelFrame, binary_frame, text_frame}
use go_webssh.Ws.Relay.Back.{Fault, eof, read_error, Reads, more, finish}

-- The options that the tunnel uses.
pub record Options : Type 0 where
  pub server_url : Text
  pub web_user : Text
  pub web_password : Text
  pub host : Text
  pub port : ℤ

pub data TunnelError : Type 0 where
  url_required web_user_required web_password_required host_required port_range : TunnelError
  no_client login_failed dial_failed connect_not_sent wait_failed : TunnelError
  told : Text → TunnelError

-- The checks of `RunTunnel`: the request that is sent.
unfoldable pub check_options : Options → Result TunnelError TunnelConnectData
check_options opt = do
  fail_if (is_empty (trim_space opt.server_url)) url_required
  fail_if (is_empty (trim_space opt.web_user)) web_user_required
  fail_if (is_empty opt.web_password) web_password_required
  let host = trim_space opt.host
  fail_if (is_empty host) host_required
  let port = if eq_ℤ opt.port (pos 0) then pos 22 else opt.port
  fail_if (out_of_range 1 65535 port) port_range
  ok (record { host = host; port = port })

-- A message of the server, by its type, with the code and the text of an error, which are empty where its payload
-- does not decode.
pub record Notice : Type 0 where
  pub kind : Text
  pub code : Text
  pub message : Text

-- What `ReadMessage` returns: bytes, a text with the message in it if it decodes, or another frame. The
-- list of frames ends where reading fails.
pub data ServerFrame : Type 0 where
  bytes_frame : Bytes → ServerFrame
  notice_frame : Option Notice → ServerFrame
  control_frame : ServerFrame

-- The text of an error that the server sends.
unfoldable pub error_text : Text → Notice → Text
error_text missing n =
    let message = if is_empty n.message then missing else n.message in
    if is_empty n.code then message else n.code ++ codes ": " ++ message

-- `waitTunnelConnected`: the frames that follow, or why there is no tunnel.
unfoldable pub wait_connected : List ServerFrame → Result TunnelError (List ServerFrame)
unfolding text_eq error_text
wait_connected [] = err wait_failed
wait_connected (bytes_frame b ∷ frames) = wait_connected frames
wait_connected (control_frame ∷ frames) = wait_connected frames
wait_connected (notice_frame none ∷ frames) = wait_connected frames
wait_connected (notice_frame (some n) ∷ frames) =
    let later = wait_connected frames in
    if text_eq n.kind (codes "tunnel-connected")
    then ok frames
    else if text_eq n.kind (codes "error")
    then err (told (error_text (codes "tunnel connection failed") n))
    else later

-- Which steps towards the server succeed, and the frames that it then sends.
pub record Link : Type 0 where
  pub client_ok : Bool
  pub login_ok : Bool
  pub dial_ok : Bool
  pub send_ok : Bool
  pub frames : List ServerFrame

-- `RunTunnel` up to the relay: the request that was sent, and the frames for the relay.
unfoldable pub open_tunnel :
    Options → Link → Result TunnelError (TunnelConnectData × List ServerFrame)
unfolding check_options wait_connected
open_tunnel opt link = do
  request ← check_options opt
  fail_if (not link.client_ok) no_client
  fail_if (not link.login_ok) login_failed
  fail_if (not link.dial_ok) dial_failed
  fail_if (not link.send_ok) connect_not_sent
  frames ← wait_connected link.frames
  ok (request, frames)

-- How the copy of the input ends.
pub data InputEnd : Type 0 where
  eof_sent send_failed input_failed : InputEnd

abbrev pub eof_frame : TunnelFrame
eof_frame = text_frame (some (codes "tunnel-eof"))

-- What follows the last bytes.
unfoldable pub copy_end : (ℕ → Bool) → ℕ → Fault → List TunnelFrame × InputEnd
copy_end sends n eof = if sends n then (eof_frame ∷ [], eof_sent) else ([], send_failed)
copy_end sends n read_error = ([], input_failed)

abbrev pub before_frames : TunnelFrame → List TunnelFrame × InputEnd → List TunnelFrame × InputEnd
before_frames frame (frames, ending) = (frame ∷ frames, ending)

-- `copyTunnelInput`; `sends n` tells whether the nth message can be written.
unfoldable pub copy_input : (ℕ → Bool) → ℕ → Reads → List TunnelFrame × InputEnd
unfolding copy_end
copy_input sends n (more [] r) = copy_input sends n r
copy_input sends n (more (b ∷ bs) r) =
    let rest = copy_input sends (suc n) r in
    if sends n then before_frames (binary_frame (b ∷ bs)) rest else ([], send_failed)
copy_input sends n (finish [] fault) = copy_end sends n fault
copy_input sends n (finish (b ∷ bs) fault) =
    let rest = copy_end sends (suc n) fault in
    if sends n then before_frames (binary_frame (b ∷ bs)) rest else ([], send_failed)

-- `writeFull`, which is the loop of `writeAll` of the server.
unfoldable pub write_full : ℕ → Writer → ℕ → Bytes → Option (Bytes × Ending × ℕ)
unfolding write_all
write_full fuel w n payload = write_all fuel w n payload

-- How the copy of the output ends.
pub data OutputEnd : Type 0 where
  connection_ended stdout_failed bad_message : OutputEnd
  reported : Text → OutputEnd

abbrev pub after_output : Bytes → Bytes × OutputEnd → Bytes × OutputEnd
after_output written (later, ending) = (written ++ later, ending)

-- `copyTunnelOutput`: what is written to the output, and the end. Each message is written within as many
-- rounds as it has bytes.
unfoldable pub copy_output : Writer → ℕ → List ServerFrame → Bytes × OutputEnd
unfolding write_full text_eq
copy_output w n [] = ([], connection_ended)
copy_output w n (bytes_frame payload ∷ frames) = elim (write_full (length payload) w n payload) [
  | none ↦ ([], stdout_failed)
  | some (written, done, next) ↦ after_output written (copy_output w next frames)
  | some (written, _, next) ↦ (written, stdout_failed)
]
copy_output w n (notice_frame none ∷ frames) = ([], bad_message)
copy_output w n (notice_frame (some notice) ∷ frames) =
    let later = copy_output w n frames in
    if text_eq notice.kind (codes "error")
    then ([], reported (notice.code ++ codes ": " ++ notice.message))
    else later
copy_output w n (control_frame ∷ frames) = copy_output w n frames
