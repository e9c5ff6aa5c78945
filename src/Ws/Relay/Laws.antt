-- ===== src/Ws/Relay/Laws.antt =====
-- What the relay writes, and how often it pings.
use go_webssh.Base.{
  ℕ, zero, suc, ◌*◌, ◌≤◌, ◌≡◌, refl, ◌∙◌, inl, inr, some, [], ◌∷◌, ◌++◌, arith, length, take, drop,
  Option-cases, ap,
}
use go_webssh.Int.{ℤ, pos, negsuc, ◌≤ℤ◌, half_ℤ}
use go_webssh.Auth.Store.{second}
use go_webssh.Auth.Primitives.{Bytes}
use go_webssh.Ws.Relay.{Writer, Ending, done, write_failed, short_write, write_all, ping_interval}

-- The interval is at least a second and at most twenty, and where the idle timeout is two seconds or
-- more, two pings fit in it.
pub ping_interval_bounds :
    (timeout : ℤ)
    → (pos second ≤ℤ ping_interval timeout)
      × (ping_interval timeout ≤ℤ pos (20 * second))
      × (pos (2 * second) ≤ℤ timeout → ping_interval timeout ≤ℤ half_ℤ timeout)
unfolding ping_interval
ping_interval_bounds (pos n) = (ground arith, ground arith, λ h. ground arith)
ping_interval_bounds (negsuc n) = (ground arith, ground arith, λ h. ground arith)

pub length-drop : (n : ℕ) (xs : Bytes) → length (drop n xs) ≤ length xs
length-drop zero xs = ground arith
length-drop (suc n) [] = ground arith
length-drop (suc n) (x ∷ xs) = ground (arith, length-drop n xs)

pub take-drop : (n : ℕ) (xs : Bytes) → take n xs ++ drop n xs ≡ xs
take-drop zero xs = refl
take-drop (suc n) [] = refl
take-drop (suc n) (x ∷ xs) = ap (λ r. x ∷ r) (take-drop n xs)

pub append_assoc : (xs ys zs : Bytes) → (xs ++ ys) ++ zs ≡ xs ++ (ys ++ zs)
append_assoc [] ys zs = refl
append_assoc (x ∷ xs) ys zs = ap (λ r. x ∷ r) (append_assoc xs ys zs)

-- The loop ends within as many rounds as there are bytes. What it has written is a first part of the
-- payload, and the whole of it where it ends well.
pub write_all_total :
    (fuel : ℕ) (w : Writer) (n : ℕ) (payload : Bytes)
    → length payload ≤ fuel
    → (written rest : Bytes) × (ending : Ending) × (next : ℕ) × (write_all fuel w n payload
        ≡ some (written, ending, next))
      × (written ++ rest ≡ payload)
      × (ending ≡ done → rest ≡ [])
unfolding write_all
write_all_total fuel w n [] h = ([], [], done, n, refl, refl, λ e. refl)
write_all_total zero w n (b ∷ payload) h = absurd (ground arith)
write_all_total (suc fuel) w n (b ∷ payload) h = elim (Option-cases (w n (b ∷ payload))) [
  | inl fails ↦ (
    [],
    b ∷ payload,
    write_failed,
    suc n,
    rw (write_all, fails) refl,
    refl,
    λ e. absurd (ground arith),
  )
  | inr (zero, short) ↦ (
    [],
    b ∷ payload,
    short_write,
    suc n,
    rw (write_all, short) refl,
    refl,
    λ e. absurd (ground arith),
  )
  | inr (suc count, took) ↦
      let (written, rest, ending, next, runs, split, whole) =
        write_all_total fuel w (suc n) (drop count payload)
          (ground (arith, length-drop count payload)) in
      (
        b ∷ take count payload ++ written,
        rest,
        ending,
        next,
        rw (write_all, took, runs) refl,
        ap (λ r. b ∷ r)
            (append_assoc (take count payload) written rest
              ∙ ap (λ r. take count payload ++ r) split
              ∙ take-drop count payload),
        whole,
      )
]
