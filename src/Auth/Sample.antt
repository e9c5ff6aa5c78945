-- ===== src/Auth/Sample.antt =====
-- A platform with transparent ciphers and a login there, for the tests.
use go_webssh.Base.{
  ℕ, zero, suc, ◌+◌, ◌-◌, ◌*◌, ◌≡◌, refl, true, Option, none, some, [], ◌∷◌, ◌++◌, arith, map, drop,
  length, ap,
}
use go_webssh.Int.{pos}
use go_webssh.Text.{Text, codes, text_eq}
use go_webssh.Text.Laws.{Avoids}
use go_webssh.Auth.Store.{hour, second}
use go_webssh.Auth.Primitives.{Crypto, Aead, Bytes, PersistentSession, IsBase64, IsJson}
use go_webssh.Auth.Login.{HasLengths, HasAead}
use go_webssh.Auth.{Authenticator, Cookie, signed_token, set_cookie}

abbrev padding : Text
padding = codes "AAAAAAAAAAA"

-- Undoes `map (λ x. x + 1000)`.
abbrev plain_bytes : Text → Bytes
plain_bytes = map (λ x. x - 1000)

abbrev read_session : Bytes → Option PersistentSession
read_session [] = none
read_session (e ∷ u) = some (record { username = u; expires = e })

abbrev sample_aead : Aead
sample_aead = record {
  nonce_size = 12;
  seal = λ nonce text extra. text;
  unseal = λ nonce text extra. some text;
}

abbrev pub sample_crypto : Crypto
sample_crypto = record {
  encode = λ b. padding ++ map (λ x. x + 1000) b;
  decode = λ t. some (plain_bytes (drop 11 t));
  mac = λ secret token. 1 ∷ secret ++ token;
  aead = λ secret. some sample_aead;
  marshal = λ s. some (s.expires ∷ s.username);
  unmarshal = read_session;
  hash_matches = text_eq;
}

plain-shifted : (b : Bytes) → plain_bytes (map (λ x. x + 1000) b) ≡ b
plain-shifted [] = refl
plain-shifted (x ∷ b) = ground (arith, plain-shifted b)

no_dot-shifted : (b : Bytes) → Avoids b'.' (map (λ x. x + 1000) b)
no_dot-shifted [] = tt
no_dot-shifted (x ∷ b) = (λ e. absurd (omega arith), no_dot-shifted b)

length-shifted : (b : Bytes) → length (map (λ x. x + 1000) b) ≡ length b
length-shifted [] = refl
length-shifted (x ∷ b) = omega (arith, length-shifted b)

pub sample-IsBase64 : IsBase64 sample_crypto
sample-IsBase64 = record {
  decodes = λ b. ap some (plain-shifted b);
  no_dot = λ b. ground (arith, no_dot-shifted b);
  non_empty = λ b n e. ground arith;
  of_token = λ b h. omega (arith, length-shifted b);
  mac_non_empty = λ secret token e. ground arith;
}

pub sample-HasAead : (a : Authenticator) → HasAead sample_crypto a
sample-HasAead a aead e = record { opens = λ nonce text extra. ground arith }

pub sample-IsJson : IsJson sample_crypto
sample-IsJson = record { reads = λ s b e. ground arith }

abbrev pub sample_auth : Authenticator
sample_auth = record {
  username = codes "admin";
  password = codes "secret";
  password_hash = [];
  secure_cookie = true;
  ttl = pos hour;
  session_secret = codes "0123456789abcdef";
}

abbrev pub zeros : ℕ → Bytes
zeros zero = []
zeros (suc n) = 0 ∷ zeros n

length-zeros : (n : ℕ) → length (zeros n) ≡ n
length-zeros zero = refl
length-zeros (suc n) = omega (arith, length-zeros n)

abbrev pub sample_random : ℕ → Option Bytes
sample_random n = some (zeros n)

pub sample_random-HasLengths : (a : Authenticator) → HasLengths sample_crypto a sample_random
sample_random-HasLengths a n b e = ground (arith, length-zeros n)

abbrev pub sample_token : Text
sample_token = signed_token sample_crypto sample_auth (sample_crypto.encode (zeros 32))

abbrev pub start : ℕ
start = 1000 * second

abbrev pub sample_cookie : Cookie
sample_cookie = set_cookie sample_crypto sample_auth start sample_token (start + hour)
