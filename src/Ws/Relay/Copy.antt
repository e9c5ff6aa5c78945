-- ===== src/Ws/Relay/Copy.antt =====
-- What reaches the target of a tunnel.
use go_webssh.Base.{
  append_nil, ℕ, ◌≡◌, refl, sym, ◌∙◌, ap, inl, inr, ◌≢◌, Bool, none, some, List, [], ◌∷◌, ◌++◌,
  arith, length, length-append, Bool-cases,
}
use go_webssh.Text.{text_eq, codes}
use go_webssh.Auth.Primitives.{Bytes}
use go_webssh.Ws.Relay.{
  Writer, Ending, done, write_failed, short_write, write_all, TunnelFrame, binary_frame, text_frame,
  other_frame, target_failed, Relayed, after_message, ended, copy_to_target,
}
use go_webssh.Ws.Relay.Laws.{write_all_total, append_assoc}

-- All that a client sends for the target.
abbrev pub payloads : List TunnelFrame → Bytes
payloads [] = []
payloads (binary_frame b ∷ frames) = b ++ payloads frames
payloads (text_frame kind ∷ frames) = payloads frames
payloads (other_frame ∷ frames) = payloads frames

-- A first part of the stream reached the target, counted in full unless the target failed.
abbrev pub IsFaithful : Bytes → Relayed → Type 0
IsFaithful stream out =
    ((rest : Bytes) × (out.to_target ++ rest ≡ stream))
    × (out.ending ≢ target_failed → out.bytes_in ≡ length out.to_target)

whole_message :
    (written rest payload : Bytes) (later : List TunnelFrame) (out : Relayed)
    → written ++ rest ≡ payload
    → rest ≡ []
    → IsFaithful (payloads later) out
    → IsFaithful (payload ++ payloads later) (after_message payload written out)
whole_message written rest payload later out split whole ((tail, prefix), counted) =
    let same : written ≡ payload =
      sym (append_nil written) ∙ ap (λ r. written ++ r) (sym whole) ∙ split in
    (
      (
        tail,
        append_assoc written out.to_target tail
            ∙ ap (λ r. written ++ r) prefix
            ∙ ap (λ r. r ++ payloads later) same,
      ),
      λ h. ground (arith, counted h, ap length same, length-append written out.to_target),
    )

failed_message :
    (written rest payload : Bytes) (later : List TunnelFrame)
    → written ++ rest ≡ payload
    → IsFaithful (payload ++ payloads later) (ended target_failed written)
failed_message written rest payload later split = (
  (
    rest ++ payloads later,
    sym (append_assoc written rest (payloads later)) ∙ ap (λ r. r ++ payloads later) split,
  ),
  λ h. absurd (h refl),
)

module _ (w : Writer) (close_ok : Bool) (n : ℕ) (payload : Bytes) (frames : List TunnelFrame) where
  -- One binary message, by the way in which writing it ends.
  message-IsFaithful :
      (written rest : Bytes) (ending : Ending) (next : ℕ)
      → write_all (length payload) w n payload ≡ some (written, ending, next)
      → written ++ rest ≡ payload
      → (ending ≡ done → rest ≡ [])
      → IsFaithful (payloads frames) (copy_to_target w close_ok next frames)
      → IsFaithful
          (payload ++ payloads frames)
          (copy_to_target w close_ok n (binary_frame payload ∷ frames))
  unfolding copy_to_target
  message-IsFaithful written rest done next runs split whole later =
      rw (copy_to_target, runs)
        (whole_message written rest payload frames (copy_to_target w close_ok next frames) split
          (whole refl) later)
  message-IsFaithful written rest write_failed next runs split whole later =
      rw (copy_to_target, runs) (failed_message written rest payload frames split)
  message-IsFaithful written rest short_write next runs split whole later =
      rw (copy_to_target, runs) (failed_message written rest payload frames split)

-- The bytes that reach the target are a first part of what the client has sent in binary messages, in
-- order, and unless writing to the target fails, the count of bytes is theirs.
pub copy_to_target-IsFaithful :
    (w : Writer) (close_ok : Bool) (n : ℕ) (frames : List TunnelFrame)
    → IsFaithful (payloads frames) (copy_to_target w close_ok n frames)
unfolding copy_to_target
copy_to_target-IsFaithful w close_ok n [] = (([], refl), λ h. refl)
copy_to_target-IsFaithful w close_ok n (binary_frame payload ∷ frames) =
    let (written, rest, ending, next, runs, split, whole) =
      write_all_total (length payload) w n payload (ground arith) in
    message-IsFaithful w close_ok n payload frames written rest ending next runs split whole
      (copy_to_target-IsFaithful w close_ok next frames)
copy_to_target-IsFaithful w close_ok n (text_frame none ∷ frames) = ((_, refl), λ h. refl)
copy_to_target-IsFaithful w close_ok n (text_frame (some kind) ∷ frames) =
    let rest = copy_to_target-IsFaithful w close_ok n frames in
    elim (Bool-cases (text_eq kind (codes "tunnel-eof"))) [
      | inr other ↦ rw other ((_, refl), λ h. refl)
      | inl eof ↦ elim (Bool-cases close_ok) [
        | inl closes ↦ rw (eof, closes) rest
        | inr fails ↦ rw (eof, fails) ((_, refl), λ h. refl)
      ]
    ]
copy_to_target-IsFaithful w close_ok n (other_frame ∷ frames) = ((_, refl), λ h. refl)
