-- ===== src/Text/Blank.antt =====
-- When a text is blank: `strings.TrimSpace` leaves nothing of it.
use go_webssh.Base.{
  ℕ, ◌≡◌, refl, true, false, not, Bool, [], ◌∷◌, ◌++◌, arith, is_empty, any, Bool-cases, inl, inr,
}
use go_webssh.Text.{Text, is_space, trim_left, trim_right, trim_space, trim_step}

-- Some rune is no space.
abbrev pub has_ink : Text → Bool
has_ink = any (λ c. not (is_space c))

trim_left-ink : (s : Text) → has_ink s ≡ true → has_ink (trim_left s) ≡ true
unfolding any trim_left
trim_left-ink [] h = h
trim_left-ink (c ∷ s) h = ground (arith, trim_left-ink s)

trim_right-ink : (s : Text) → has_ink s ≡ true → is_empty (trim_right s) ≡ false
unfolding any trim_right
trim_right-ink [] h = absurd (ground arith)
trim_right-ink (c ∷ s) h = elim (Bool-cases (is_space c)) [
  | inl blank ↦ ground (arith, trim_right-ink s)
  | inr ink ↦ keeps c (trim_right s) ink
]
  where
    keeps : (d : ℕ) (t : Text) → is_space d ≡ false → is_empty (trim_step d t) ≡ false
    keeps d [] e = ground arith
    keeps d (x ∷ t) e = refl

-- A text with a rune that is no space is not trimmed away.
pub trim_space-ink : (s : Text) → has_ink s ≡ true → is_empty (trim_space s) ≡ false
unfolding trim_space
trim_space-ink s h = trim_right-ink (trim_left s) (trim_left-ink s h)

pub has_ink-append : (s t : Text) → has_ink t ≡ true → has_ink (s ++ t) ≡ true
unfolding any
has_ink-append [] t h = h
has_ink-append (c ∷ s) t h = ground (arith, has_ink-append s t h)
