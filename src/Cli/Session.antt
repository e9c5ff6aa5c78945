-- ===== src/Cli/Session.antt =====
-- The terminal session of internal/cli/session.go, and `waitConnected` of internal/cli/cli.go, on decoded messages.
pub mod Laws
mod Tests
use go_webssh.Base.{
  ℕ, suc, ◌+◌, Bool, true, false, not, ◌&&◌, ◌||◌, Option, none, some, List, [], ◌∷◌, ◌++◌, Result,
  ok, err, if◌then◌else◌, is_empty, ltb, ◌==◌,
}
use go_webssh.Int.{ℤ, pos, eq_ℤ}
use go_webssh.Text.{Text, codes, byte_len}
use go_webssh.Net.{itoa_ℤ}
use go_webssh.Auth.Primitives.{Bytes}
use go_webssh.Ws.Connect.{or_else}
use go_webssh.Ws.Session.{Frame, data_frame, input_message}
use go_webssh.Ws.Relay.Back.{Fault, eof, read_error, Reads, more, finish}

-- A message of the server by its type, with its payload, of which what does not decode is empty.
pub data ServerMessage : Type 0 where
  connected_message other_message : ServerMessage
  output_message : Text → ServerMessage
  error_message : Text → Text → ServerMessage
  closed_message : Text → Option ℤ → ServerMessage

-- A close frame with its code and its text, a timeout of the network, the end of the stream, or another error.
pub data NetError : Type 0 where
  close_error : ℕ → Text → NetError
  net_timeout stream_end cancelled : NetError
  other_error : Text → NetError

-- What `ReadMessage` returns: bytes, a text with the message in it if it decodes, or another frame; and
-- at last an error.
pub data Frames : Type 0 where
  bytes_then : Bytes → Frames → Frames
  text_then : Option ServerMessage → Frames → Frames
  other_then : Frames → Frames
  fails : NetError → Frames

-- The text of an error of the server.
unfoldable pub error_text : Text → Text → Text → Text
error_text missing code message =
    let shown = or_else message missing in
    if is_empty code then shown else code ++ codes ": " ++ shown

pub data WaitError : Type 0 where
  wait_failed : NetError → WaitError
  told : Text → WaitError

-- `waitConnected`: the frames that follow, or why there is no session.
unfoldable pub wait_connected : Frames → Result WaitError Frames
unfolding error_text
wait_connected (bytes_then b frames) = wait_connected frames
wait_connected (text_then (some connected_message) frames) = ok frames
wait_connected (text_then (some (error_message code message)) frames) =
    err (told (error_text (codes "connect failed") code message))
wait_connected (text_then (some (closed_message reason status)) frames) =
    err (told (or_else reason (codes "connection closed before connected")))
wait_connected (text_then _ frames) = wait_connected frames
wait_connected (other_then frames) = wait_connected frames
wait_connected (fails e) = err (wait_failed e)

-- How the reading ends: the remote end of the session, an error of the server, one of the connection, or one of
-- the output.
pub data ReadEnd : Type 0 where
  remote_exit : ℤ → Text → ReadEnd
  session_error : Text → ReadEnd
  net_error : NetError → ReadEnd
  stdout_failed : Text → ReadEnd

-- `*cd.ExitStatus`, or 0
abbrev pub status_of : Option ℤ → ℤ
status_of none = pos 0
status_of (some code) = code

-- What a message is to the loop: something to write, nothing, or the end.
pub data Step : Type 0 where
  writes : Bytes → Step
  skips : Step
  ends : ReadEnd → Step

-- `handleText`, on the decoded message
unfoldable pub handle_text : Option ServerMessage → Step
unfolding error_text
handle_text (some (output_message (b ∷ bytes))) = writes (b ∷ bytes)
handle_text (some (error_message code message)) =
    ends (session_error (error_text (codes "session error") code message))
handle_text (some (closed_message reason status)) = ends (remote_exit (status_of status) reason)
handle_text _ = skips

abbrev pub after_write : Bytes → Bytes × ReadEnd → Bytes × ReadEnd
after_write b (rest, ending) = (b ++ rest, ending)

-- `readLoop`: what is written to the output, and the end. `write_error n` is the error of the nth write, if it fails.
unfoldable pub read_loop : (ℕ → Option Text) → ℕ → Frames → Bytes × ReadEnd
unfolding handle_text
read_loop write_error n (bytes_then b frames) =
    let rest = read_loop write_error (suc n) frames in
    elim (write_error n) [ none ↦ after_write b rest | some e ↦ ([], stdout_failed e) ]
read_loop write_error n (text_then message frames) =
    let rest = read_loop write_error (suc n) frames in
    let same = read_loop write_error n frames in
    elim (handle_text message) [
      | writes b ↦ elim (write_error n) [
        | none ↦ after_write b rest
        | some e ↦ ([], stdout_failed e)
      ]
      | skips ↦ same
      | ends ending ↦ ([], ending)
    ]
read_loop write_error n (other_then frames) = read_loop write_error n frames
read_loop write_error n (fails e) = ([], net_error e)

-- `describeRemoteExit`
unfoldable pub describe_exit : ℤ → Text → Text
describe_exit code message =
    if is_empty message
    then codes "remote session exited with status " ++ itoa_ℤ code
    else if eq_ℤ code (pos 0)
    then message
    else message ++ codes " (exit status " ++ itoa_ℤ code ++ codes ")"

-- `describeDisconnect`
unfoldable pub describe_disconnect : NetError → Text
describe_disconnect (close_error code text) =
    let closed = codes "WebSocket closed (code " ++ itoa_ℤ (pos code) ++ codes ")" in
    if is_empty text then closed else closed ++ codes ": " ++ text
describe_disconnect net_timeout = codes "WebSocket read timeout"
describe_disconnect stream_end = codes "peer closed the connection"
describe_disconnect cancelled = codes "connection canceled"
describe_disconnect (other_error text) = text

-- Whether an error is a normal end: a close frame 1000 or 1001, the end of the stream, or a cancellation.
unfoldable pub is_normal_end : NetError → Bool
is_normal_end (close_error code text) = eq_ℤ (pos code) (pos 1000) || eq_ℤ (pos code) (pos 1001)
is_normal_end stream_end = true
is_normal_end cancelled = true
is_normal_end _ = false

-- How `relay` ends for the program: well, with a notice; with the status of the remote session; or with an error.
pub data Outcome : Type 0 where
  ended_well : Text → Outcome
  exited : ℤ → Text → Outcome
  failed : Text → Outcome

-- The end of `relay`
unfoldable pub outcome : ReadEnd → Outcome
unfolding describe_exit describe_disconnect is_normal_end
outcome (remote_exit code message) =
    if eq_ℤ code (pos 0) then ended_well (describe_exit code message) else exited code message
outcome (net_error e) =
    if is_normal_end e
    then ended_well (describe_disconnect e)
    else failed (codes "disconnected: " ++ describe_disconnect e)
outcome (session_error text) = failed (codes "disconnected: " ++ text)
outcome (stdout_failed e) = failed (codes "disconnected: stdout: " ++ e)

-- How the copy of the input ends.
pub data InputEnd : Type 0 where
  input_ended not_sent input_failed : InputEnd

-- What follows the last bytes.
abbrev pub input_end : Fault → InputEnd
input_end eof = input_ended
input_end read_error = input_failed

-- The bytes of a rune in a string of JSON, as Go writes it. U+FFFD counts as its escape, which stands for a byte that is
-- not UTF-8.
unfoldable pub json_rune_len : ℕ → ℕ
json_rune_len c =
    if c == b'"' || c == b'\\' || c == 8 || c == 9 || c == 10 || c == 12 || c == 13
    then 2
    else if ltb c 0x20
        || c == b'<'
        || c == b'>'
        || c == b'&'
        || c == 0x2028
        || c == 0x2029
        || c == 0xFFFD
    then 6
    else byte_len (c ∷ [])

unfoldable pub json_len : Text → ℕ
unfolding json_rune_len byte_len
json_len [] = 0
json_len (c ∷ s) = json_rune_len c + json_len s

-- The message of an input, as the server receives it.
unfoldable pub frame_of : Text → Frame
unfolding json_len
frame_of text = data_frame (26 + json_len text) (some (input_message (some text)))

abbrev pub before_frame : Frame → List Frame × InputEnd → List Frame × InputEnd
before_frame f (rest, ending) = (f ∷ rest, ending)

-- `copyStdin`, while the session is not cancelled; `sends n` tells whether the nth message can be written, and
-- `text_of` is the text that JSON makes of the bytes.
unfoldable pub copy_stdin : (Bytes → Text) → (ℕ → Bool) → ℕ → Reads → List Frame × InputEnd
unfolding frame_of
copy_stdin text_of sends n (more [] r) = copy_stdin text_of sends n r
copy_stdin text_of sends n (more (b ∷ bs) r) =
    let rest = copy_stdin text_of sends (suc n) r in
    if sends n then before_frame (frame_of (text_of (b ∷ bs))) rest else ([], not_sent)
copy_stdin text_of sends n (finish [] fault) = ([], input_end fault)
copy_stdin text_of sends n (finish (b ∷ bs) fault) =
    if sends n then (frame_of (text_of (b ∷ bs)) ∷ [], input_end fault) else ([], not_sent)
