-- ===== src/Cli/Session/Laws.antt =====
-- What the shell gets of the input of the client.
use go_webssh.Base.{
  ℕ, zero, suc, ◌+◌, ◌*◌, ◌≤◌, ◌≡◌, refl, ◌∙◌, ap, Bool, true, false, List, [], ◌∷◌, map, arith,
  All, length,
}
use go_webssh.Text.{Text, byte_len}
use go_webssh.Auth.Primitives.{Bytes}
use go_webssh.Code.{Code}
use go_webssh.Ws.Connect.{reject}
use go_webssh.Ws.Protocol.{error_reply}
use go_webssh.Ws.Session.{Frame, write_stdin, send, handle_frame, handle_message, read_loop}
use go_webssh.Ws.Relay.Back.{Reads, more, finish}
use go_webssh.Cli.Session.{json_rune_len, json_len, frame_of, copy_stdin}

-- The bytes that are read at a time.
abbrev pub chunks : Reads → List Bytes
chunks (more [] r) = chunks r
chunks (more (b ∷ bs) r) = (b ∷ bs) ∷ chunks r
chunks (finish [] fault) = []
chunks (finish (b ∷ bs) fault) = (b ∷ bs) ∷ []

-- The message of a text, and the text, are within the bounds of the server.
abbrev pub Fits : Text → Type 0
Fits t = (26 + json_len t ≤ 67584) × (byte_len t ≤ 65536)

abbrev pub takes_all : Text → Bool
takes_all t = true

handle_frame-frame_of :
    (t : Text) → Fits t → handle_frame takes_all (frame_of t) ≡ (write_stdin t ∷ [], false)
unfolding handle_frame handle_message frame_of
handle_frame-frame_of t (small, short) = ground (arith, small, short)

read_loop-frame_of :
    (t : Text) (frames : List Frame)
    → Fits t
    → read_loop takes_all (frame_of t ∷ frames) ≡ write_stdin t ∷ read_loop takes_all frames
unfolding read_loop
read_loop-frame_of t frames fits = rw (read_loop, handle_frame-frame_of t fits) refl

-- Where every message can be sent and the texts fit, the shell gets them all, in order.
pub stdin_delivered :
    (text_of : Bytes → Text) (k : ℕ) (r : Reads)
    → All (λ b. Fits (text_of b)) (chunks r)
    → read_loop takes_all ((copy_stdin text_of (λ n. true) k r).0)
      ≡ map (λ b. write_stdin (text_of b)) (chunks r)
unfolding copy_stdin read_loop
stdin_delivered text_of k (more [] r) fits = stdin_delivered text_of k r fits
stdin_delivered text_of k (more (b ∷ bs) r) (fit, fits) =
    read_loop-frame_of (text_of (b ∷ bs)) ((copy_stdin text_of (λ n. true) (suc k) r).0) fit
    ∙ ap (λ actions. write_stdin (text_of (b ∷ bs)) ∷ actions)
        (stdin_delivered text_of (suc k) r fits)
stdin_delivered text_of k (finish [] fault) fits = refl
stdin_delivered text_of k (finish (b ∷ bs) fault) (fit, fits) =
    read_loop-frame_of (text_of (b ∷ bs)) [] fit

-- A text of one rune, over and over.
abbrev pub repeated : ℕ → ℕ → Text
repeated zero c = []
repeated (suc n) c = c ∷ repeated n c

-- A rune that JSON escapes with six bytes.
abbrev pub IsEscaped : ℕ → Type 0
IsEscaped c = json_rune_len c ≡ 6

pub repeated-IsEscaped : (n : ℕ) → All IsEscaped (repeated n b'<')
unfolding json_rune_len
repeated-IsEscaped zero = tt
repeated-IsEscaped (suc n) = (refl, repeated-IsEscaped n)

json_len-escaped : (t : Text) → All IsEscaped t → json_len t ≡ 6 * length t
unfolding json_len
json_len-escaped [] escaped = refl
json_len-escaped (c ∷ t) (six, escaped) = omega (arith, six, json_len-escaped t escaped)

-- An input of 11260 or more runes, about a third of what the client reads at once, each of which JSON escapes with six
-- bytes, is refused by the server, which then reads nothing more.
pub markup_refused :
    (stdin_ok : Text → Bool) (t : Text) (frames : List Frame)
    → All IsEscaped t
    → 11260 ≤ length t
    → read_loop stdin_ok (frame_of t ∷ frames)
      ≡ send (error_reply (reject Code.bad_request "message too large")) ∷ []
unfolding read_loop handle_frame frame_of
markup_refused stdin_ok t frames escaped large = ground (arith, large, json_len-escaped t escaped)

length-repeated : (n c : ℕ) → length (repeated n c) ≡ n
length-repeated zero c = refl
length-repeated (suc n) c = ap suc (length-repeated n c)

pub repeated-IsLong : (n : ℕ) → 11260 ≤ n → 11260 ≤ length (repeated n b'<')
repeated-IsLong n h = omega (arith, length-repeated n b'<')
