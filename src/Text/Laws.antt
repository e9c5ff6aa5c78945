-- ===== src/Text/Laws.antt =====
-- Equality of texts, prefixes, and cutting at a separator.
use go_webssh.Base.{
  ℕ, ◌≡◌, refl, ◌≢◌, ◌↔◌, true, false, inl, inr, none, some, [], ◌∷◌, ◌++◌, arith, ==_iff,
  Bool-cases, Option-cases, All,
}
use go_webssh.Text.{Text, text_eq, has_prefix, drop_like, trim_prefix, cut, cut_last}

pub text_eq_sound : (s t : Text) → text_eq s t ≡ true → s ≡ t
unfolding text_eq
text_eq_sound [] [] h = refl
text_eq_sound (c ∷ s) (d ∷ t) h = ground (arith, text_eq_sound s t)
text_eq_sound _ _ h = ground arith

pub text_eq_refl : (s : Text) → text_eq s s ≡ true
unfolding text_eq
text_eq_refl [] = refl
text_eq_refl (c ∷ s) = ground (arith, text_eq_refl s)

pub text_eq_of_eq : (s t : Text) → s ≡ t → text_eq s t ≡ true
text_eq_of_eq s t e = rw e (text_eq_refl t)

pub text_eq_iff : (s t : Text) → (text_eq s t ≡ true) ↔ (s ≡ t)
text_eq_iff s t = (text_eq_sound s t, text_eq_of_eq s t)

pub text_eq-false : (s t : Text) → s ≢ t → text_eq s t ≡ false
text_eq-false s t n = elim (Bool-cases (text_eq s t)) [
  | inl e ↦ absurd (n (text_eq_sound s t e))
  | inr e ↦ e
]

pub has_prefix-append : (p s : Text) → has_prefix (p ++ s) p ≡ true
unfolding has_prefix
has_prefix-append [] s = refl
has_prefix-append (c ∷ p) s = ground (arith, has_prefix-append p s)

drop_like-append : (p s : Text) → drop_like (p ++ s) p ≡ s
unfolding drop_like
drop_like-append [] s = refl
drop_like-append (c ∷ p) s = drop_like-append p s

pub trim_prefix-append : (p s : Text) → trim_prefix (p ++ s) p ≡ s
unfolding trim_prefix
trim_prefix-append p s = rw (has_prefix-append p s) (drop_like-append p s)

-- No rune of the text is the given one.
abbrev pub Avoids : ℕ → Text → Type 0
Avoids sep s = All (λ c. c ≢ sep) s

-- A text is cut at its first separator.
pub cut-append : (sep : ℕ) (s t : Text) → Avoids sep s → cut sep (s ++ sep ∷ t) ≡ some (s, t)
unfolding cut
cut-append sep [] t h = ground arith
cut-append sep (c ∷ s) t (n, h) = ground (arith, cut-append sep s t h)

-- What `cut` returns are the two sides of a separator.
pub cut-eq-some :
    (sep : ℕ) (s a b : Text) → cut sep s ≡ some (a, b) → (s ≡ a ++ sep ∷ b) × Avoids sep a
unfolding cut
cut-eq-some sep [] a b h = absurd (ground arith)
cut-eq-some sep (c ∷ s) a b h = elim (Option-cases (cut sep s)) [
  | inl stops ↦ ground (arith, ==_iff c sep)
  | inr (p, found) ↦ ground (arith, cut-eq-some sep s p.0 p.1 found, ==_iff c sep)
]

pub cut_last-none : (sep : ℕ) (s : Text) → Avoids sep s → cut_last sep s ≡ none
unfolding cut_last
cut_last-none sep [] h = refl
cut_last-none sep (c ∷ s) (n, h) = ground (arith, cut_last-none sep s h, n)

pub cut_last-append :
    (sep : ℕ) (s t : Text) → Avoids sep t → cut_last sep (s ++ sep ∷ t) ≡ some (s, t)
unfolding cut_last
cut_last-append sep [] t h = ground (arith, cut_last-none sep t h)
cut_last-append sep (c ∷ s) t h = ground (arith, cut_last-append sep s t h)

-- A text with a prefix is the prefix and what follows.
pub has_prefix-split : (s p : Text) → has_prefix s p ≡ true → s ≡ p ++ drop_like s p
unfolding has_prefix drop_like
has_prefix-split s [] h = refl
has_prefix-split [] (c ∷ p) h = absurd (ground arith)
has_prefix-split (d ∷ s) (c ∷ p) h = ground (arith, has_prefix-split s p)

-- A text with a prefix is the prefix and what is behind it.
