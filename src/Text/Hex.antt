-- ===== src/Text/Hex.antt =====
-- `hex.DecodeString` and `hex.EncodeToString`.
use go_webssh.Base.{
  ℕ, ◌+◌, ◌-◌, ◌*◌, ◌/◌, ◌%◌, ◌<◌, ◌≡◌, refl, ◌&&◌, Option, none, some, List, [], ◌∷◌, leb, ltb,
  if◌then◌else◌, All, arith,
}
use go_webssh.Text.{Text, is_digit}

unfoldable pub hex_digit : ℕ → Option ℕ
hex_digit c =
    if is_digit c
    then some (c - b'0')
    else if leb b'a' c && leb c b'f'
    then some (c - b'a' + 10)
    else if leb b'A' c && leb c b'F'
    then some (c - b'A' + 10)
    else none

abbrev join_digits : Option ℕ → Option ℕ → Option (List ℕ) → Option (List ℕ)
join_digits (some hi) (some lo) (some rest) = some ((hi * 16 + lo) ∷ rest)
join_digits _ _ _ = none

-- `hex.DecodeString`, which fails on an odd number of digits and on other characters.
unfoldable pub hex_decode : Text → Option (List ℕ)
unfolding hex_digit
hex_decode [] = some []
hex_decode (c ∷ []) = none
hex_decode (c ∷ d ∷ s) = join_digits (hex_digit c) (hex_digit d) (hex_decode s)

abbrev pub digit_char : ℕ → ℕ
digit_char n = if ltb n 10 then b'0' + n else b'a' + (n - 10)

-- `hex.EncodeToString`
unfoldable pub hex_encode : List ℕ → Text
hex_encode [] = []
hex_encode (b ∷ bs) = digit_char (b / 16) ∷ digit_char (b % 16) ∷ hex_encode bs

hex_digit-digit_char : (n : ℕ) → n < 16 → hex_digit (digit_char n) ≡ some n
unfolding hex_digit
hex_digit-digit_char n h = ground arith

-- What is written in hexadecimal reads back.
pub hex_decode-hex_encode :
    (bs : List ℕ) → All (λ b. b < 256) bs → hex_decode (hex_encode bs) ≡ some bs
unfolding hex_decode hex_encode
hex_decode-hex_encode [] h = refl
hex_decode-hex_encode (b ∷ bs) (lt, h) = ground (
  arith,
  hex_digit-digit_char (b / 16),
  hex_digit-digit_char (b % 16),
  hex_decode-hex_encode bs h,
)
