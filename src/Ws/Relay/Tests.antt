-- ===== src/Ws/Relay/Tests.antt =====
-- The relay of a tunnel at concrete frames, and the theorems there.
use go_webssh.Base.{ℕ, ◌≡◌, true, some, [], ◌∷◌, ◌++◌, length, arith}
use go_webssh.Text.{codes}
use go_webssh.Auth.Primitives.{Bytes}
use go_webssh.Ws.Relay.{Writer, Ending, done, write_all, binary_frame, text_frame, copy_to_target}
use go_webssh.Ws.Relay.Laws.{write_all_total}
use go_webssh.Ws.Relay.Copy.{copy_to_target-IsFaithful, IsFaithful, payloads}

-- A writer that takes two bytes at a time.
abbrev by_two : Writer
by_two n (a ∷ b ∷ payload) = some 2
by_two n payload = some (length payload)

write_all_total_example :
    (written rest : Bytes) × (ending : Ending) × (next : ℕ) × (write_all 3 by_two 0 (1 ∷ 2 ∷ 3 ∷ [])
      ≡ some (written, ending, next))
    × (written ++ rest ≡ (1 ∷ 2 ∷ 3 ∷ []))
    × (ending ≡ done → rest ≡ [])
write_all_total_example = write_all_total 3 by_two 0 (1 ∷ 2 ∷ 3 ∷ []) (omega arith)

copy_to_target-IsFaithful_example :
    let frames = binary_frame (1 ∷ 2 ∷ 3 ∷ []) ∷ text_frame (some (codes "tunnel-eof")) ∷ [] in
    IsFaithful (payloads frames) (copy_to_target by_two true 0 frames)
copy_to_target-IsFaithful_example =
    copy_to_target-IsFaithful by_two true 0
      (binary_frame (1 ∷ 2 ∷ 3 ∷ []) ∷ text_frame (some (codes "tunnel-eof")) ∷ [])
