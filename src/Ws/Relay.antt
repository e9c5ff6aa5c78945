-- ===== src/Ws/Relay.antt =====
-- The relay of a tunnel in internal/ws/tunnel.go: `writeAll`, `copyWebSocketToTarget` and the ping
-- interval. Bytes are numbers.
pub mod Laws
mod Tests
pub mod Copy
pub mod Back
use go_webssh.Base.{
  ℕ, zero, suc, ◌+◌, ◌*◌, Bool, true, false, Option, none, some, List, [], ◌∷◌, ◌++◌, if◌then◌else◌,
  length, take, drop, ◌&&◌,
}
use go_webssh.Int.{ℤ, pos, ltb_ℤ, half_ℤ}
use go_webssh.Text.{Text, codes, text_eq}
use go_webssh.Auth.Store.{second}
use go_webssh.Auth.Primitives.{Bytes}

-- The replies of `w.Write`: at the nth call on a payload, how many bytes it took, or none for an error. A
-- count beyond the payload, which `io.Writer` excludes, is read as the whole of it.
abbrev pub Writer : Type 0
Writer = ℕ → Bytes → Option ℕ

-- How a copy ends.
pub data Ending : Type 0 where
  done write_failed short_write : Ending

-- `writeAll`, with the number of the next call, on fuel for its loop: what was written, how it ended,
-- and the number of the call that would be next.
unfoldable pub write_all : ℕ → Writer → ℕ → Bytes → Option (Bytes × Ending × ℕ)
write_all fuel w n [] = some ([], done, n)
write_all zero w n (b ∷ payload) = none
write_all (suc fuel) w n (b ∷ payload) = elim (w n (b ∷ payload)) [
  | none ↦ some ([], write_failed, suc n)
  | some zero ↦ some ([], short_write, suc n)
  | some (suc count) ↦ elim (write_all fuel w (suc n) (drop count payload)) [
    | none ↦ none
    | some (written, ending, next) ↦ some (b ∷ take count payload ++ written, ending, next)
  ]
]

-- `tunnelPingInterval`
unfoldable pub ping_interval : ℤ → ℤ
ping_interval timeout =
    let interval =
      if ltb_ℤ (pos 0) timeout && ltb_ℤ (half_ℤ timeout) (pos (20 * second))
      then half_ℤ timeout
      else pos (20 * second) in
    if ltb_ℤ interval (pos second) then pos second else interval

-- What `ReadMessage` returns in a tunnel: bytes, a text with the type of the message if it decodes, or
-- another frame. The list of frames ends where reading fails.
pub data TunnelFrame : Type 0 where
  binary_frame : Bytes → TunnelFrame
  text_frame : Option Text → TunnelFrame
  other_frame : TunnelFrame

-- How the relay to the target ends.
pub data RelayEnd : Type 0 where
  read_failed target_failed close_failed unexpected : RelayEnd

-- What the relay leaves behind: the bytes that reached the target, the count of those of whole
-- messages, whether the target's input was closed, and the end.
pub record Relayed : Type 0 where
  pub to_target : Bytes
  pub bytes_in : ℕ
  pub input_closed : Bool
  pub ending : RelayEnd

abbrev pub ended : RelayEnd → Bytes → Relayed
ended e written = record { to_target = written; bytes_in = 0; input_closed = false; ending = e }

-- A message that was written as a whole, before the rest.
abbrev pub after_message : Bytes → Bytes → Relayed → Relayed
after_message payload written rest = record rest {
  to_target = written ++ rest.to_target;
  bytes_in = length payload + rest.bytes_in;
}

-- `copyWebSocketToTarget`; `close_ok` tells whether the input of the target can be closed. Each
-- message is written within as many rounds as it has bytes.
unfoldable pub copy_to_target : Writer → Bool → ℕ → List TunnelFrame → Relayed
unfolding text_eq
copy_to_target w close_ok n [] = ended read_failed []
copy_to_target w close_ok n (binary_frame payload ∷ frames) =
    elim (write_all (length payload) w n payload) [
      | none ↦ ended target_failed []
      | some (written, done, next) ↦
          after_message payload written (copy_to_target w close_ok next frames)
      | some (written, _, next) ↦ ended target_failed written
    ]
copy_to_target w close_ok n (text_frame none ∷ frames) = ended unexpected []
copy_to_target w close_ok n (text_frame (some kind) ∷ frames) =
    let rest = record (copy_to_target w close_ok n frames) { input_closed = true } in
    if text_eq kind (codes "tunnel-eof")
    then (if close_ok then rest else ended close_failed [])
    else ended unexpected []
copy_to_target w close_ok n (other_frame ∷ frames) = ended unexpected []
