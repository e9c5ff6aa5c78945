-- ===== src/Text/Decimal.antt =====
-- `strconv.Itoa` and `strconv.Atoi` on numbers without a sign.
use go_webssh.Base.{
  ℕ, zero, suc, ◌+◌, ◌-◌, ◌*◌, ◌/◌, ◌%◌, ◌<◌, ◌==◌, ◌≡◌, refl, ◌≢◌, ◌∙◌, true, inl, inr, some, none,
  Option, [], ◌∷◌, ◌++◌, arith, ltb, if◌then◌else◌, Bool-cases, All, All-append,
}
use go_webssh.Int.{ℤ, pos, negsuc}
use go_webssh.Text.{Text, is_digit}
use mathlib.Core.Option

-- The digits of `n`; the fuel is above `n`.
decimal_from : ℕ → ℕ → Text
decimal_from zero n = []
decimal_from (suc f) n =
    let longer = decimal_from f (n / 10) ++ (b'0' + n % 10) ∷ [] in
    if ltb n 10 then (b'0' + n) ∷ [] else longer

-- `strconv.Itoa(n)`
unfoldable pub itoa : ℕ → Text
unfolding decimal_from
itoa n = decimal_from (suc n) n

digits_value : ℕ → Text → Option ℕ
digits_value acc [] = some acc
digits_value acc (c ∷ s) =
    let rest = digits_value (acc * 10 + (c - b'0')) s in if is_digit c then rest else none

-- The number that a non-empty run of digits stands for. Numbers beyond the range of `int`, at
-- which `strconv.Atoi` fails, are above every bound that the program then tests.
unfoldable pub atoi : Text → Option ℕ
unfolding digits_value
atoi [] = none
atoi (c ∷ s) = digits_value 0 (c ∷ s)

digits_value-concat :
    (s : Text) (acc n d : ℕ)
    → digits_value acc s ≡ some n
    → d < 10
    → digits_value acc (s ++ (b'0' + d) ∷ []) ≡ some (n * 10 + d)
unfolding digits_value
digits_value-concat [] acc n d h lt = ground arith
digits_value-concat (c ∷ s) acc n d h lt =
    ground (arith, digits_value-concat s (acc * 10 + (c - b'0')) n d)

append-ne-nil : (s : Text) (c : ℕ) → s ++ c ∷ [] ≢ []
append-ne-nil [] c e = ground arith
append-ne-nil (d ∷ s) c e = ground arith

digits_value-decimal : (f n : ℕ) → n < f → digits_value 0 (decimal_from f n) ≡ some n
unfolding decimal_from digits_value
digits_value-decimal zero n h = absurd (omega arith)
digits_value-decimal (suc f) n h = elim (Bool-cases (ltb n 10)) [
  | inl small ↦ rw small (ground arith)
  | inr big ↦ rw big (
      ground (
        arith,
        digits_value-concat (decimal_from f (n / 10)) 0 (n / 10) (n % 10),
        digits_value-decimal f (n / 10),
      ))
]

decimal-ne-nil : (f n : ℕ) → n < f → decimal_from f n ≢ []
unfolding decimal_from
decimal-ne-nil zero n h = absurd (omega arith)
decimal-ne-nil (suc f) n h = elim (Bool-cases (ltb n 10)) [
  | inl small ↦ rw small (λ e. ground arith)
  | inr big ↦ rw big (append-ne-nil (decimal_from f (n / 10)) (b'0' + n % 10))
]

atoi-of-ne-nil : (s : Text) → s ≢ [] → atoi s ≡ digits_value 0 s
unfolding atoi
atoi-of-ne-nil [] h = absurd (h refl)
atoi-of-ne-nil (c ∷ s) h = refl

-- What is printed reads back as the same number.
pub atoi-itoa : (n : ℕ) → atoi (itoa n) ≡ some n
unfolding itoa
atoi-itoa n =
    let fits : n < suc n = omega arith in
    atoi-of-ne-nil (decimal_from (suc n) n) (decimal-ne-nil (suc n) n fits)
    ∙ digits_value-decimal (suc n) n fits

decimal-digits : (f n : ℕ) → All (λ c. is_digit c ≡ true) (decimal_from f n)
unfolding decimal_from
decimal-digits zero n = tt
decimal-digits (suc f) n = elim (Bool-cases (ltb n 10)) [
  | inl small ↦ rw small (ground arith, tt)
  | inr big ↦ rw big (
      All-append (λ c. is_digit c ≡ true) (decimal_from f (n / 10)) ((b'0' + n % 10) ∷ [])
        (decimal-digits f (n / 10)) (ground arith, tt))
]

pub itoa-digits : (n : ℕ) → All (λ c. is_digit c ≡ true) (itoa n)
unfolding itoa
itoa-digits n = decimal-digits (suc n) n

abbrev negate : ℕ → ℤ
negate zero = pos 0
negate (suc n) = negsuc n

-- `strconv.Atoi`, with the sign that it accepts.
unfoldable pub atoi_ℤ : Text → Option ℤ
unfolding atoi
atoi_ℤ [] = none
atoi_ℤ (c ∷ s) =
    if c == b'-'
    then Option.map negate (atoi s)
    else if c == b'+'
    then Option.map pos (atoi s)
    else Option.map pos (atoi (c ∷ s))
