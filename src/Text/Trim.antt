-- ===== src/Text/Trim.antt =====
-- What `strings.TrimSpace` leaves alone.
use go_webssh.Base.{ℕ, ◌≡◌, refl, true, false, [], ◌∷◌, ◌++◌, All}
use go_webssh.Text.{Text, is_space, trim_left, trim_right, trim_space}

-- No rune of the text is a space.
abbrev pub IsSolid : Text → Type 0
IsSolid = All (λ c. is_space c ≡ false)

trim_right-space : (c : ℕ) (s : Text) → IsSolid s → is_space c ≡ true → trim_right (s ++ c ∷ []) ≡ s
unfolding trim_right
trim_right-space c [] h blank = rw blank refl
trim_right-space c (d ∷ []) (ink, h) blank = rw (blank, ink) refl
trim_right-space c (d ∷ e ∷ s) (ink, h) blank = rw (trim_right-space c (e ∷ s) h blank) refl

trim_right-solid : (s : Text) → IsSolid s → trim_right s ≡ s
unfolding trim_right
trim_right-solid [] h = refl
trim_right-solid (d ∷ []) (ink, h) = rw ink refl
trim_right-solid (d ∷ e ∷ s) (ink, h) = rw (trim_right-solid (e ∷ s) h) refl

-- A text without spaces is left alone.
pub trim_space-solid : (s : Text) → IsSolid s → trim_space s ≡ s
unfolding trim_space trim_left
trim_space-solid [] h = trim_right-solid [] h
trim_space-solid (c ∷ s) h = rw (h.0) (trim_right-solid (c ∷ s) h)

-- One space behind a text without spaces is trimmed away.
pub trim_space-space :
    (c : ℕ) (s : Text) → IsSolid s → is_space c ≡ true → trim_space (s ++ c ∷ []) ≡ s
unfolding trim_space trim_left trim_right
trim_space-space c [] h blank = rw blank refl
trim_space-space c (d ∷ s) h blank = rw (h.0) (trim_right-space c (d ∷ s) h blank)
