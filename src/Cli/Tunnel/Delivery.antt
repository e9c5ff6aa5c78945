-- ===== src/Cli/Tunnel/Delivery.antt =====
-- What the client reads from its input, and what the server then writes to the target.
use go_webssh.Base.{
  append_nil, ℕ, zero, suc, ◌≡◌, refl, sym, ◌∙◌, ap, inl, inr, Bool, true, false, some, List, [],
  ◌∷◌, ◌++◌, arith, length, take, Bool-cases, if◌then◌else◌,
}
use go_webssh.Text.{text_eq}
use go_webssh.Auth.Primitives.{Bytes}
use go_webssh.Ws.Relay.{
  Writer, Ending, done, write_failed, short_write, write_all, TunnelFrame, binary_frame, Relayed,
  copy_to_target, after_message,
}
use go_webssh.Ws.Relay.Laws.{write_all_total}
use go_webssh.Ws.Relay.Back.{Fault, eof, read_error, Reads, more, finish, contents}
use go_webssh.Cli.Tunnel.{before_frames, send_failed, copy_input, copy_end, InputEnd}

module _ (w : Writer) (close_ok : Bool) where
  -- What the server makes of the frames, from the nth write on.
  abbrev relayed : ℕ → List TunnelFrame → Relayed
  relayed n frames = copy_to_target w close_ok n frames

  message_done :
      (n : ℕ) (payload written : Bytes) (frames : List TunnelFrame) (next : ℕ)
      → write_all (length payload) w n payload ≡ some (written, done, next)
      → relayed n (binary_frame payload ∷ frames)
        ≡ after_message payload written (relayed next frames)
  unfolding copy_to_target
  message_done n payload written frames next runs = rw (copy_to_target, runs) refl

  closed_message :
      (n : ℕ) (payload written rest : Bytes) (frames : List TunnelFrame) (ending : Ending)
      (next : ℕ)
      → write_all (length payload) w n payload ≡ some (written, ending, next)
      → written ++ rest ≡ payload
      → (ending ≡ done → rest ≡ [])
      → (relayed n (binary_frame payload ∷ frames)).input_closed ≡ true
      → (later : ℕ) × ((relayed later frames).input_closed ≡ true)
        × ((relayed n (binary_frame payload ∷ frames)).to_target
            ≡ payload ++ (relayed later frames).to_target)
  unfolding copy_to_target
  closed_message n payload written rest frames done next runs split whole closed =
      let same = message_done n payload written frames next runs in
      let all : written ≡ payload =
        sym (append_nil written) ∙ ap (λ r. written ++ r) (sym (whole refl)) ∙ split in
      (
        next,
        ap (λ out. out.input_closed) (sym same) ∙ closed,
        ap (λ out. out.to_target) same ∙ ap (λ b. b ++ (relayed next frames).to_target) all,
      )
  closed_message n payload written rest frames write_failed next runs split whole closed =
      absurd (ground (arith, closed, runs))
  closed_message n payload written rest frames short_write next runs split whole closed =
      absurd (ground (arith, closed, runs))

  end_closed :
      (sends : ℕ → Bool) (k j n : ℕ) (fault : Fault)
      → (relayed n (take j ((copy_end sends k fault).0))).input_closed ≡ true
      → (relayed n (take j ((copy_end sends k fault).0))).to_target ≡ []
  unfolding copy_end copy_to_target text_eq
  end_closed sends k zero n fault closed = refl
  end_closed sends k (suc zero) n eof closed = elim (Bool-cases (sends k)) [
    | inl sent ↦ ground (arith, sent, Bool-cases close_ok)
    | inr lost ↦ ground (arith, lost)
  ]
  end_closed sends k (suc (suc j)) n eof closed = elim (Bool-cases (sends k)) [
    | inl sent ↦ ground (arith, sent, Bool-cases close_ok)
    | inr lost ↦ ground (arith, lost)
  ]
  end_closed sends k (suc j) n read_error closed = refl

  nothing_closed : (j n : ℕ) → (relayed n (take j [])).input_closed ≡ false
  unfolding copy_to_target
  nothing_closed zero n = refl
  nothing_closed (suc j) n = refl

  -- One message in front of what the client sends later.
  front_closed :
      (j n : ℕ) (payload stream : Bytes) (later : List TunnelFrame × InputEnd)
      → ((i m : ℕ)
          → (relayed m (take i (later.0))).input_closed ≡ true
          → (relayed m (take i (later.0))).to_target ≡ stream)
      → (relayed n (take j (binary_frame payload ∷ later.0))).input_closed ≡ true
      → (relayed n (take j (binary_frame payload ∷ later.0))).to_target ≡ payload ++ stream
  front_closed zero n payload stream later ih closed =
      absurd (ground (arith, closed, nothing_closed 0 n))
  front_closed (suc j) n payload stream later ih closed =
      let (written, rest, ending, next, runs, split, whole) =
        write_all_total (length payload) w n payload (omega arith) in
      let (m, later_closed, same) =
        closed_message n payload written rest (take j (later.0)) ending next runs split whole
          closed in
      same ∙ ap (λ b. payload ++ b) (ih j m later_closed)

  -- The same, where the message may not be sent.
  sent_closed :
      (sent : Bool) (j n : ℕ) (payload stream : Bytes) (later : List TunnelFrame × InputEnd)
      → ((i m : ℕ)
          → (relayed m (take i (later.0))).input_closed ≡ true
          → (relayed m (take i (later.0))).to_target ≡ stream)
      → (relayed n (
          take j (
            (if sent
              then before_frames (binary_frame payload) later
              else ([], send_failed)).0))).input_closed
        ≡ true
      → (relayed n (
          take j (
            (if sent
              then before_frames (binary_frame payload) later
              else ([], send_failed)).0))).to_target
        ≡ payload ++ stream
  sent_closed true j n payload stream later ih closed =
      front_closed j n payload stream later ih closed
  sent_closed false j n payload stream later ih closed =
      absurd (ground (arith, closed, nothing_closed j n))

  -- However many of the frames arrive, and whatever can be sent and written: the input of the target is closed only
  -- behind all that the client has read from its own input.
  pub closed_carries_all :
      (sends : ℕ → Bool) (k : ℕ) (r : Reads) (j n : ℕ)
      → (copy_to_target w close_ok n (take j ((copy_input sends k r).0))).input_closed ≡ true
      → (copy_to_target w close_ok n (take j ((copy_input sends k r).0))).to_target ≡ contents r
  unfolding copy_input
  closed_carries_all sends k (more [] r) j n closed = closed_carries_all sends k r j n closed
  closed_carries_all sends k (more (b ∷ bs) r) j n closed =
      sent_closed (sends k) j n (b ∷ bs) (contents r) (copy_input sends (suc k) r)
        (λ i m. closed_carries_all sends (suc k) r i m) closed
  closed_carries_all sends k (finish [] fault) j n closed = end_closed sends k j n fault closed
  closed_carries_all sends k (finish (b ∷ bs) fault) j n closed =
      sent_closed (sends k) j n (b ∷ bs) [] (copy_end sends (suc k) fault)
        (λ i m. end_closed sends (suc k) i m fault) closed
      ∙ append_nil (b ∷ bs)
