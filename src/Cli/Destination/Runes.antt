-- ===== src/Cli/Destination/Runes.antt =====
-- The runes of a destination: which of them part it, and which do not.
use go_webssh.Base.{
  ℕ, ◌≤◌, ◌≡◌, refl, ◌≢◌, Bool, true, false, some, [], ◌∷◌, ◌++◌, ok, ◌==◌, ◌&&◌, ◌||◌, arith, All,
  All-map, is_empty, any, any-eq-false_iff, not,
}
use go_webssh.Text.{Text, codes, contains, has_prefix, is_digit, all_runes, is_space}
use go_webssh.Text.Laws.{Avoids}
use go_webssh.Text.Trim.{IsSolid}
use go_webssh.Text.Decimal.{atoi, itoa, atoi-itoa, itoa-digits}
use go_webssh.Cli.Destination.{parse_port}

-- No space, no slash and no at sign.
unfoldable pub is_common : ℕ → Bool
is_common c = not (is_space c) && not (c == b'/') && not (c == b'@')

abbrev pub has_colon : Text → Bool
has_colon = any (λ c. c == b':')

abbrev pub brackets : ℕ → Bool
brackets c = c == b'[' || c == b']'

pub no_url : (s : Text) → Avoids b'/' s → contains s (codes "://") ≡ false
unfolding contains has_prefix
no_url [] h = refl
no_url (c ∷ []) h = ground arith
no_url (c ∷ d ∷ s) (n, (m, h)) = ground (arith, no_url (d ∷ s) (m, h), m)

pub digits-common : (s : Text) → All (λ c. is_digit c ≡ true) s → All (λ c. is_common c ≡ true) s
unfolding is_common is_space
digits-common s = All-map (λ c. is_digit c ≡ true) (λ c. is_common c ≡ true) (λ c h. ground arith) s

pub digits-All : (s : Text) → All (λ c. is_digit c ≡ true) s → all_runes is_digit s ≡ true
unfolding all_runes
digits-All [] h = refl
digits-All (c ∷ s) (p, h) = rw (p, digits-All s h) refl

pub atoi-empty : (s : Text) (n : ℕ) → atoi s ≡ some n → is_empty s ≡ false
unfolding atoi
atoi-empty [] n h = absurd (ground arith)
atoi-empty (c ∷ s) n h = refl

pub parse_port-itoa : (n : ℕ) → 1 ≤ n → n ≤ 65535 → parse_port (itoa n) ≡ ok n
unfolding parse_port
parse_port-itoa n lo hi =
    let empty = atoi-empty (itoa n) n (atoi-itoa n) in
    ground (arith, lo, hi, empty, digits-All (itoa n) (itoa-digits n), atoi-itoa n)

pub any-append :
    (p : ℕ → Bool) (s t : Text) → any p s ≡ false → any p t ≡ false → any p (s ++ t) ≡ false
unfolding any
any-append p [] t h k = k
any-append p (c ∷ s) t h k = ground (arith, any-append p s t)

pub any-brackets-digits : (s : Text) → All (λ c. is_digit c ≡ true) s → any brackets s ≡ false
unfolding any
any-brackets-digits [] h = refl
any-brackets-digits (c ∷ s) (p, h) = ground (arith, any-brackets-digits s h)

pub Avoids-colon : (s : Text) → has_colon s ≡ false → Avoids b':' s
Avoids-colon s h =
    All-map (λ c. (c == b':') ≡ false) (λ c. c ≢ b':') (λ c e. ground arith) s
      ((any-eq-false_iff (λ c. c == b':') s).0 h)

pub digits-Avoids-colon : (s : Text) → All (λ c. is_digit c ≡ true) s → Avoids b':' s
digits-Avoids-colon s = All-map (λ c. is_digit c ≡ true) (λ c. c ≢ b':') (λ c h. ground arith) s

pub brackets-Avoids : (s : Text) → any brackets s ≡ false → Avoids b']' s
brackets-Avoids s h =
    All-map (λ c. brackets c ≡ false) (λ c. c ≢ b']') (λ c e. ground arith) s
      ((any-eq-false_iff brackets s).0 h)

pub common-Avoids_slash : (s : Text) → All (λ c. is_common c ≡ true) s → Avoids b'/' s
unfolding is_common
common-Avoids_slash = All-map (λ c. is_common c ≡ true) (λ c. c ≢ b'/') (λ c h. ground arith)

pub common-Avoids_at : (s : Text) → All (λ c. is_common c ≡ true) s → Avoids b'@' s
unfolding is_common
common-Avoids_at = All-map (λ c. is_common c ≡ true) (λ c. c ≢ b'@') (λ c h. ground arith)

pub common-IsSolid : (s : Text) → All (λ c. is_common c ≡ true) s → IsSolid s
unfolding is_common
common-IsSolid = All-map (λ c. is_common c ≡ true) (λ c. is_space c ≡ false) (λ c h. ground arith)

-- A text without spaces and slashes.
abbrev pub IsPlain : Text → Type 0
IsPlain = All (λ c. not (is_space c) && not (c == b'/') ≡ true)

pub IsPlain-IsSolid : (s : Text) → IsPlain s → IsSolid s
IsPlain-IsSolid =
    All-map (λ c. not (is_space c) && not (c == b'/') ≡ true) (λ c. is_space c ≡ false)
      (λ c h. ground arith)

pub IsPlain-Avoids_slash : (s : Text) → IsPlain s → Avoids b'/' s
IsPlain-Avoids_slash =
    All-map (λ c. not (is_space c) && not (c == b'/') ≡ true) (λ c. c ≢ b'/') (λ c h. ground arith)
