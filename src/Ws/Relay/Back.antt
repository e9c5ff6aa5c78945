-- ===== src/Ws/Relay/Back.antt =====
-- `copyTargetToWebSocket` of internal/ws/tunnel.go: the relay from the target to the client.
use go_webssh.Base.{ℕ, suc, ◌+◌, Bool, List, [], ◌∷◌, ◌++◌, if◌then◌else◌, length}
use go_webssh.Auth.Primitives.{Bytes}
use go_webssh.Ws.Relay.{TunnelFrame, binary_frame}

-- How reading a stream ends.
pub data Fault : Type 0 where
  eof read_error : Fault

-- What the calls of `Read` on a stream return: bytes and no error, and at last bytes with an error.
pub data Reads : Type 0 where
  more : Bytes → Reads → Reads
  finish : Bytes → Fault → Reads

-- All that can be read.
abbrev pub contents : Reads → Bytes
contents (more b r) = b ++ contents r
contents (finish b fault) = b

-- How the relay to the client ends.
pub data BackEnd : Type 0 where
  target_ended : Fault → BackEnd
  not_sent : BackEnd

-- The frames that are sent, the count of their bytes, and the end.
abbrev pub Sent : Type 0
Sent = List TunnelFrame × ℕ × BackEnd

abbrev pub after_frame : Bytes → Sent → Sent
after_frame b (frames, count, ending) = (binary_frame b ∷ frames, length b + count, ending)

-- `copyTargetToWebSocket`; `sends n` tells whether the nth message can be written.
unfoldable pub copy_from_target : (ℕ → Bool) → ℕ → Reads → Sent
copy_from_target sends n (more [] r) = copy_from_target sends n r
copy_from_target sends n (more (b ∷ bs) r) =
    let rest = copy_from_target sends (suc n) r in
    if sends n then after_frame (b ∷ bs) rest else ([], 0, not_sent)
copy_from_target sends n (finish [] fault) = ([], 0, target_ended fault)
copy_from_target sends n (finish (b ∷ bs) fault) =
    if sends n
    then (binary_frame (b ∷ bs) ∷ [], length (b ∷ bs), target_ended fault)
    else ([], 0, not_sent)
