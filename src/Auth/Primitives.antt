-- ===== src/Auth/Primitives.antt =====
-- The cryptography, the encodings and the random source that the session code calls: parameters,
-- with what is documented of them as separate hypotheses.
use go_webssh.Base.{ℕ, ◌≡◌, ◌≢◌, Bool, Option, some, List, [], length}
use go_webssh.Text.{Text}
use go_webssh.Text.Laws.{Avoids}

abbrev pub Bytes : Type 0
Bytes = List ℕ

-- `persistentSession`, with the expiry in seconds.
pub record PersistentSession : Type 0 where
  pub username : Text
  pub expires : ℕ

-- `cipher.AEAD`: the nonce, the text and the additional data.
pub record Aead : Type 0 where
  pub nonce_size : ℕ
  pub seal : Bytes → Bytes → Bytes → Bytes
  pub unseal : Bytes → Bytes → Bytes → Option Bytes

pub record Crypto : Type 0 where
  -- `base64.RawURLEncoding`
  pub encode : Bytes → Text
  pub decode : Text → Option Bytes
  -- HMAC-SHA256 of a text under a secret
  pub mac : Text → Text → Bytes
  -- AES-GCM under the SHA-256 of a text
  pub aead : Text → Option Aead
  -- `json.Marshal` and `json.Unmarshal` at `persistentSession`
  pub marshal : PersistentSession → Option Bytes
  pub unmarshal : Bytes → Option PersistentSession
  -- `bcrypt.CompareHashAndPassword` succeeds
  pub hash_matches : Text → Text → Bool

-- Base64 decodes what it encodes, to text without dots, which is empty only for no bytes and has
-- 43 characters for 32 bytes; a MAC is not empty.
pub record IsBase64 (c : Crypto) : Type 0 where
  pub decodes : (b : Bytes) → c.decode (c.encode b) ≡ some b
  pub no_dot : (b : Bytes) → Avoids b'.' (c.encode b)
  pub non_empty : (b : Bytes) → b ≢ [] → c.encode b ≢ []
  pub of_token : (b : Bytes) → length b ≡ 32 → length (c.encode b) ≡ 43
  pub mac_non_empty : (secret token : Text) → c.mac secret token ≢ []

-- What is sealed opens again under the same nonce and additional data.
pub record IsAead (a : Aead) : Type 0 where
  pub opens :
      (nonce text extra : Bytes) → a.unseal nonce (a.seal nonce text extra) extra ≡ some text

-- A value that JSON writes reads back.
pub record IsJson (c : Crypto) : Type 0 where
  pub reads : (s : PersistentSession) (b : Bytes) → c.marshal s ≡ some b → c.unmarshal b ≡ some s
