-- ===== src/Vault/Sample.antt =====
-- A platform with transparent ciphers, where JSON writes every field behind its length, for the tests.
use go_webssh.Base.{
  ℕ, zero, suc, ◌≡◌, refl, sym, Bool, true, false, Option, none, some, [], ◌∷◌, ◌++◌, arith, length,
  take, drop, take-append, drop-append,
}
use go_webssh.Int.{ℤ, pos, negsuc}
use go_webssh.Text.{Text, codes}
use go_webssh.Auth.Primitives.{Bytes, Aead}
use go_webssh.Vault.Primitives.{Library, Credential, Database, IsJson, HasAead, HasLengths}

abbrev pub sample_aead : Aead
sample_aead = record {
  nonce_size = 2;
  seal = λ nonce text extra. text;
  unseal = λ nonce text extra. some text;
}

-- A text behind its length.
unfoldable pub put_text : Text → Bytes → Bytes
put_text t rest = length t ∷ t ++ rest

unfoldable pub get_text : Bytes → Text × Bytes
get_text [] = ([], [])
get_text (n ∷ b) = (take n b, drop n b)

get_text-put_text : (t : Text) (rest : Bytes) → get_text (put_text t rest) ≡ (t, rest)
unfolding get_text put_text
get_text-put_text t rest =
    rw (take-append (length t) t rest refl, drop-append (length t) t rest refl) refl

abbrev sign_of : ℤ → ℕ
sign_of (pos n) = 0
sign_of (negsuc n) = 1

abbrev size_of : ℤ → ℕ
size_of (pos n) = n
size_of (negsuc n) = n

abbrev number_of : ℕ → ℕ → ℤ
number_of zero n = pos n
number_of (suc _) n = negsuc n

abbrev flag_of : Bool → ℕ
flag_of true = 1
flag_of false = 0

abbrev bool_of : ℕ → Bool
bool_of zero = false
bool_of (suc _) = true

abbrev time_code : Option ℕ → ℕ
time_code none = 0
time_code (some t) = suc t

abbrev time_of : ℕ → Option ℕ
time_of zero = none
time_of (suc t) = some t

abbrev pub encoded : Credential → Bytes
encoded c =
    (sign_of c.port
      ∷ size_of c.port
      ∷ flag_of c.use_herdr
      ∷ time_code c.created_at
      ∷ time_code c.updated_at
      ∷ put_text c.id (
          put_text c.name (
            put_text c.host (
              put_text c.username
                (put_text c.private_key (put_text c.passphrase (put_text c.term [])))))))

abbrev write_credential : Credential → Option Bytes
write_credential c = some (encoded c)

abbrev read_credential : Bytes → Option Credential
read_credential (s ∷ n ∷ f ∷ a ∷ u ∷ texts) =
    let id = get_text texts in
    let name = get_text id.1 in
    let host = get_text name.1 in
    let username = get_text host.1 in
    let private_key = get_text username.1 in
    let passphrase = get_text private_key.1 in
    let term = get_text passphrase.1 in
    some (record {
      id = id.0;
      name = name.0;
      host = host.0;
      port = number_of s n;
      username = username.0;
      private_key = private_key.0;
      passphrase = passphrase.0;
      term = term.0;
      use_herdr = bool_of f;
      created_at = time_of a;
      updated_at = time_of u;
    })
read_credential _ = none

number_of-parts : (i : ℤ) → number_of (sign_of i) (size_of i) ≡ i
number_of-parts (pos n) = refl
number_of-parts (negsuc n) = refl

bool_of-flag_of : (b : Bool) → bool_of (flag_of b) ≡ b
bool_of-flag_of true = refl
bool_of-flag_of false = refl

time_of-time_code : (t : Option ℕ) → time_of (time_code t) ≡ t
time_of-time_code none = refl
time_of-time_code (some t) = refl

pub read-encoded : (c : Credential) → read_credential (encoded c) ≡ some c
read-encoded c =
    rw
      (
        get_text-put_text c.id _,
        get_text-put_text c.name _,
        get_text-put_text c.host _,
        get_text-put_text c.username _,
        get_text-put_text c.private_key _,
        get_text-put_text c.passphrase _,
        get_text-put_text c.term _,
        number_of-parts c.port,
        bool_of-flag_of c.use_herdr,
        time_of-time_code c.created_at,
        time_of-time_code c.updated_at,
      )
      refl

read-written :
    (c : Credential) (b : Bytes) → write_credential c ≡ some b → read_credential b ≡ some c
read-written c b h = let same : encoded c ≡ b = ground (arith, h) in rw (sym same) (read-encoded c)

abbrev pub sample_library : Library
sample_library = record {
  aead = λ key. some sample_aead;
  marshal = write_credential;
  unmarshal = read_credential;
  marshal_summary = λ s. some s.id;
  unmarshal_summary = λ b. none;
  derive = λ password salt. password;
}

pub sample-IsJson : IsJson sample_library
sample-IsJson = record { reads = read-written }

pub sample_ciphers : HasAead sample_library
sample_ciphers key a h =
    (record { opens = λ nonce text extra. ground (arith, h) }, ground (arith, h))

abbrev pub zeros : ℕ → Bytes
zeros zero = []
zeros (suc n) = 0 ∷ zeros n

length-zeros : (n : ℕ) → length (zeros n) ≡ n
length-zeros zero = refl
length-zeros (suc n) = omega (arith, length-zeros n)

abbrev pub sample_random : ℕ → Option Bytes
sample_random n = some (zeros n)

pub sample_lengths : HasLengths sample_random
sample_lengths n b h = let same : zeros n ≡ b = ground (arith, h) in rw (sym same) (length-zeros n)

abbrev pub sample_credential : Credential
sample_credential = record {
  id = [];
  name = codes "n";
  host = codes "h";
  port = pos 0;
  username = codes "u";
  private_key = codes "k";
  passphrase = [];
  term = [];
  use_herdr = true;
  created_at = none;
  updated_at = none;
}

abbrev pub saved_credential : Credential
saved_credential = record sample_credential {
  id = codes "i";
  port = pos 22;
  term = codes "xterm-256color";
  created_at = some 5;
  updated_at = some 5;
}

abbrev pub empty_database : Database
empty_database = record { credentials = []; summaries = [] }
