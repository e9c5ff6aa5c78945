-- ===== src/Cli/Session/Tests.antt =====
-- A session at concrete frames, and the theorems there.
use go_webssh.Base.{◌≡◌, refl, none, some, [], ◌∷◌, ok, err, arith}
use go_webssh.Int.{pos}
use go_webssh.Text.{codes}
use go_webssh.Text.Decimal.{itoa}
use go_webssh.Net.{itoa_ℤ}
use go_webssh.Code.{Code}
use go_webssh.Ws.Connect.{reject}
use go_webssh.Ws.Protocol.{error_reply}
use go_webssh.Ws.Session.{send, read_loop}
use go_webssh.Ws.Relay.Back.{eof, Reads, more, finish}
use go_webssh.Cli.Session as Session
use go_webssh.Cli.Session.{
  copy_stdin, frame_of, json_len, json_rune_len, ServerMessage, connected_message, output_message,
  closed_message, error_message, NetError, net_timeout, close_error, Frames, bytes_then, text_then,
  other_then, fails, wait_connected, told, error_text, remote_exit, handle_text, outcome, exited,
  ended_well, failed, describe_exit, describe_disconnect, is_normal_end, net_error,
}
use go_webssh.Cli.Session.Laws.{
  takes_all, repeated, markup_refused, repeated-IsEscaped, repeated-IsLong,
}

abbrev typed : Reads
typed = more (codes "ls") (more [] (finish (codes "\n") eof))

markup_refused_example :
    read_loop takes_all (frame_of (repeated 32768 b'<') ∷ [])
    ≡ send (error_reply (reject Code.bad_request "message too large")) ∷ []
markup_refused_example =
    markup_refused takes_all (repeated 32768 b'<') [] (repeated-IsEscaped 32768)
      (repeated-IsLong 32768 (omega arith))

abbrev frames : Frames
frames = bytes_then (1 ∷ 2 ∷ []) (
    text_then (some (output_message (codes "x")))
      (text_then (some (closed_message (codes "bye") (some (pos 3)))) (fails net_timeout)))

wait_runs : wait_connected (other_then (text_then (some connected_message) frames)) ≡ ok frames
unfolding wait_connected
wait_runs = refl

told_runs :
    wait_connected (text_then (some (error_message (codes "E") [])) frames)
    ≡ err (told (codes "E: connect failed"))
unfolding wait_connected error_text
told_runs = refl

read_runs :
    Session.read_loop (λ n. none) 0 frames ≡ (1 ∷ 2 ∷ codes "x", remote_exit (pos 3) (codes "bye"))
unfolding Session.read_loop handle_text
read_runs = refl

exit_runs : outcome (remote_exit (pos 3) (codes "bye")) ≡ exited (pos 3) (codes "bye")
unfolding outcome
exit_runs = refl

close_runs :
    outcome (net_error (close_error 1000 (codes "bye")))
    ≡ ended_well (codes "WebSocket closed (code 1000): bye")
unfolding outcome is_normal_end describe_disconnect itoa_ℤ itoa
close_runs = refl

timeout_runs :
    outcome (net_error net_timeout) ≡ failed (codes "disconnected: WebSocket read timeout")
unfolding outcome is_normal_end describe_disconnect
timeout_runs = refl
