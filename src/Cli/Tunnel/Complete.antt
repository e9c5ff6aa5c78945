-- ===== src/Cli/Tunnel/Complete.antt =====
-- Where all steps of a tunnel succeed, it carries the whole input to the target and the whole output back.
use go_webssh.Base.{
  append_nil, ℕ, zero, suc, ◌≤◌, ◌≡◌, refl, ◌∙◌, ap, Bool, true, none, some, List, [], ◌∷◌, ◌++◌,
  arith, length, length-append, drop, map,
}
use go_webssh.Text.{text_eq}
use go_webssh.Auth.Primitives.{Bytes}
use go_webssh.Ws.Relay.{
  Writer, done, write_all, TunnelFrame, binary_frame, text_frame, other_frame, Relayed,
  copy_to_target, after_message,
}
use go_webssh.Ws.Relay.Laws.{length-drop, take-drop}
use go_webssh.Ws.Relay.Back.{
  Fault, eof, read_error, Reads, more, finish, contents, copy_from_target,
}
use go_webssh.Cli.Tunnel.{
  copy_input, copy_end, eof_frame, copy_output, write_full, after_output, ServerFrame, bytes_frame,
  notice_frame, control_frame, connection_ended,
}

-- A writer that takes some bytes of every payload.
abbrev pub IsHonest : Writer → Type 0
IsHonest w = (n b : ℕ) (bs : Bytes) → (count : ℕ) × (w n (b ∷ bs) ≡ some (suc count))

abbrev pub all_sent : ℕ → Bool
all_sent n = true

-- How reading the input ends.
abbrev pub last_fault : Reads → Fault
last_fault (more b r) = last_fault r
last_fault (finish b fault) = fault

-- All of the input reached the target, is counted, and the target's input was closed.
abbrev pub IsComplete : Bytes → Relayed → Type 0
IsComplete stream out =
    (out.to_target ≡ stream) × (out.bytes_in ≡ length stream) × (out.input_closed ≡ true)

-- What the client receives of a frame of the server.
abbrev pub received : TunnelFrame → ServerFrame
received (binary_frame b) = bytes_frame b
received (text_frame none) = notice_frame none
received (text_frame (some kind)) =
    notice_frame (some (record { kind = kind; code = []; message = [] }))
received other_frame = control_frame

module _ (w : Writer) (honest : IsHonest w) where
  write_all_honest :
      (fuel n : ℕ) (payload : Bytes)
      → length payload ≤ fuel
      → (next : ℕ) × (write_all fuel w n payload ≡ some (payload, done, next))
  unfolding write_all
  write_all_honest fuel n [] fits = (n, refl)
  write_all_honest zero n (b ∷ payload) fits = absurd (ground arith)
  write_all_honest (suc fuel) n (b ∷ payload) fits =
      let (count, took) = honest n b payload in
      let (next, runs) =
        write_all_honest fuel (suc n) (drop count payload)
          (ground (arith, length-drop count payload)) in
      (next, rw (write_all, took, runs) (rw (take-drop count payload) refl))

  message_passes :
      (n : ℕ) (payload : Bytes) (frames : List TunnelFrame)
      → (next : ℕ) × (copy_to_target w true n (binary_frame payload ∷ frames)
          ≡ after_message payload payload (copy_to_target w true next frames))
  unfolding copy_to_target
  message_passes n payload frames =
      let (next, runs) = write_all_honest (length payload) n payload (omega arith) in
      (next, rw (copy_to_target, runs) refl)

  message-IsComplete :
      (n : ℕ) (payload stream : Bytes) (frames : List TunnelFrame)
      → ((m : ℕ) → IsComplete stream (copy_to_target w true m frames))
      → IsComplete (payload ++ stream) (copy_to_target w true n (binary_frame payload ∷ frames))
  message-IsComplete n payload stream frames later =
      let (next, same) = message_passes n payload frames in
      let (target, count, closed) = later next in
      rw same
        (ap (λ b. payload ++ b) target, omega (arith, count, length-append payload stream), closed)

  end-IsComplete : (k n : ℕ) → IsComplete [] (copy_to_target w true n ((copy_end all_sent k eof).0))
  unfolding copy_to_target copy_end text_eq
  end-IsComplete k n = (refl, refl, refl)

  -- The whole input of the client, if it ends well, is written to the target, whose input is then closed.
  input_delivered :
      (r : Reads) (k n : ℕ)
      → last_fault r ≡ eof
      → IsComplete (contents r) (copy_to_target w true n ((copy_input all_sent k r).0))
  unfolding copy_input
  input_delivered (more [] r) k n ends = input_delivered r k n ends
  input_delivered (more (b ∷ bs) r) k n ends =
      message-IsComplete n (b ∷ bs) (contents r) ((copy_input all_sent (suc k) r).0)
        (λ m. input_delivered r (suc k) m ends)
  input_delivered (finish b read_error) k n ends = absurd (ground (arith, ends))
  input_delivered (finish [] eof) k n ends = end-IsComplete k n
  input_delivered (finish (b ∷ bs) eof) k n ends =
      let one = message-IsComplete n (b ∷ bs) [] (eof_frame ∷ []) (λ m. end-IsComplete (suc k) m) in
      (one.0 ∙ append_nil (b ∷ bs), one.1 ∙ ap length (append_nil (b ∷ bs)), one.2)

  output_passes :
      (n : ℕ) (payload : Bytes) (frames : List ServerFrame)
      → (next : ℕ) × (copy_output w n (bytes_frame payload ∷ frames)
          ≡ after_output payload (copy_output w next frames))
  unfolding copy_output write_full
  output_passes n payload frames =
      let (next, runs) = write_all_honest (length payload) n payload (omega arith) in
      (next, rw (copy_output, runs) refl)

  -- The whole output of the target is written to the output of the client.
  output_delivered :
      (r : Reads) (k n : ℕ)
      → copy_output w n (map received ((copy_from_target all_sent k r).0))
        ≡ (contents r, connection_ended)
  unfolding copy_output copy_from_target
  output_delivered (more [] r) k n = output_delivered r k n
  output_delivered (more (b ∷ bs) r) k n =
      let (next, same) =
        output_passes n (b ∷ bs) (map received ((copy_from_target all_sent (suc k) r).0)) in
      same ∙ ap (after_output (b ∷ bs)) (output_delivered r (suc k) next)
  output_delivered (finish [] fault) k n = refl
  output_delivered (finish (b ∷ bs) fault) k n =
      let (next, same) = output_passes n (b ∷ bs) [] in
      same ∙ ap (λ rest. (b ∷ rest, connection_ended)) (append_nil bs)

-- Where every message can be sent, both ends take what they are given and the input ends well, the target gets the whole
-- input and then its end, and the client's output is the whole output of the target.
pub tunnel_delivers :
    (target stdout : Writer) (input output : Reads)
    → IsHonest target
    → IsHonest stdout
    → last_fault input ≡ eof
    → IsComplete (contents input) (copy_to_target target true 0 ((copy_input all_sent 0 input).0))
      × (copy_output stdout 0 (map received ((copy_from_target all_sent 0 output).0))
          ≡ (contents output, connection_ended))
tunnel_delivers target stdout input output takes prints ends =
    (input_delivered target takes input 0 0 ends, output_delivered stdout prints output 0 0)
