-- ===== src/Ws/Session/Frames.antt =====
-- What the read loop of `run` does with the frames of a client.
use go_webssh.Base.{◌≤◌, ◌≡◌, Bool, true, none, some, List, [], ◌∷◌, ◌++◌, arith, All, All-append}
use go_webssh.Int.{InRange}
use go_webssh.Text.{Text, byte_len}
use go_webssh.Ws.Session.{
  ClientMessage, connect_message, input_message, resize_message, ping_message, disconnect_message,
  other_message, Frame, control_frame, data_frame, Action, write_stdin, window_change, send,
  handle_message, handle_frame, read_loop,
}

-- An input of at most 64 KiB, a window within its bounds, or a reply.
abbrev pub IsBounded : Action → Type 0
IsBounded (write_stdin text) = byte_len text ≤ 65536
IsBounded (window_change rows cols) = InRange 5 200 rows × InRange 20 500 cols
IsBounded (send reply) = Unit

module _ (stdin_ok : Text → Bool) where
  handle_message-IsBounded : (m : ClientMessage) → All IsBounded (handle_message stdin_ok m).0
  unfolding handle_message
  handle_message-IsBounded (connect_message payload) = tt
  handle_message-IsBounded (input_message none) = tt
  handle_message-IsBounded (input_message (some text)) = ground arith
  handle_message-IsBounded (resize_message none) = tt
  handle_message-IsBounded (resize_message (some size)) = ground arith
  handle_message-IsBounded (ping_message none) = tt
  handle_message-IsBounded (ping_message (some sent_at)) = (tt, tt)
  handle_message-IsBounded disconnect_message = tt
  handle_message-IsBounded other_message = tt

  handle_frame-IsBounded : (f : Frame) → All IsBounded (handle_frame stdin_ok f).0
  unfolding handle_frame
  handle_frame-IsBounded control_frame = tt
  handle_frame-IsBounded (data_frame size none) = ground arith
  handle_frame-IsBounded (data_frame size (some m)) = ground (arith, handle_message-IsBounded m)

  -- Whatever a client sends, the shell gets only inputs of at most 64 KiB and windows between 5 by 20
  -- and 200 by 500.
  pub read_loop-IsBounded : (frames : List Frame) → All IsBounded (read_loop stdin_ok frames)
  unfolding read_loop
  read_loop-IsBounded [] = tt
  read_loop-IsBounded (frame ∷ frames) = ground (
    arith,
    handle_frame-IsBounded frame,
    All-append IsBounded (handle_frame stdin_ok frame).0 (read_loop stdin_ok frames)
        (handle_frame-IsBounded frame) (read_loop-IsBounded frames),
  )

  -- A frame that ends the loop.
  abbrev pub Ends : Frame → Type 0
  Ends frame = (handle_frame stdin_ok frame).1 ≡ true

  -- What follows a frame that ends the loop has no effect.
  pub read_loop-stops :
      (frames later : List Frame) (frame : Frame)
      → Ends frame
      → read_loop stdin_ok (frames ++ frame ∷ later) ≡ read_loop stdin_ok (frames ++ frame ∷ [])
  unfolding read_loop
  read_loop-stops [] later frame h = ground arith
  read_loop-stops (f ∷ frames) later frame h = ground (arith, read_loop-stops frames later frame h)
