-- ===== src/Vault/Primitives.antt =====
-- The types of internal/vault/vault.go, and the cryptography and JSON that it calls: parameters, with
-- what is documented of them as hypotheses. Bytes of an id are its code points. A time that is zero
-- is none.
use go_webssh.Base.{ℕ, ◌≡◌, ◌≤◌, Bool, Option, some, length}
use go_webssh.Int.{ℤ}
use go_webssh.Text.{Text}
use go_webssh.Dict.{Dict}
use go_webssh.Auth.Primitives.{Bytes, Aead, IsAead}

pub record Credential : Type 0 where
  pub id : Text
  pub name : Text
  pub host : Text
  pub port : ℤ
  pub username : Text
  pub private_key : Text
  pub passphrase : Text
  pub term : Text
  pub use_herdr : Bool
  pub created_at : Option ℕ
  pub updated_at : Option ℕ

pub record Summary : Type 0 where
  pub id : Text
  pub owner : Text
  pub name : Text
  pub host : Text
  pub port : ℤ
  pub username : Text
  pub term : Text
  pub use_herdr : Bool
  pub has_private_key : Bool
  pub has_passphrase : Bool
  pub updated_at : Option ℕ

-- The two buckets of records.
pub record Database : Type 0 where
  pub credentials : Dict Bytes
  pub summaries : Dict Bytes

pub data VaultError : Type 0 where
  no_cipher no_random no_json not_found cannot_decrypt id_required password_required
        owner_required :
      VaultError

pub record Library : Type 0 where
  -- AES-GCM under a key, none for a key of a wrong size
  pub aead : Bytes → Option Aead
  pub marshal : Credential → Option Bytes
  pub unmarshal : Bytes → Option Credential
  pub marshal_summary : Summary → Option Bytes
  pub unmarshal_summary : Bytes → Option Summary
  -- `argon2.IDKey` of a password under the salt
  pub derive : Bytes → Bytes → Bytes

-- JSON reads back the credential that it wrote.
pub record IsJson (lib : Library) : Type 0 where
  pub reads : (c : Credential) (b : Bytes) → lib.marshal c ≡ some b → lib.unmarshal b ≡ some c

-- What is sealed opens again, under every key that has a cipher, and a nonce is not empty.
abbrev pub HasAead : Library → Type 0
HasAead lib = (key : Bytes) (a : Aead) → lib.aead key ≡ some a → IsAead a × (1 ≤ a.nonce_size)

-- A random source fills the buffer.
abbrev pub HasLengths : (ℕ → Option Bytes) → Type 0
HasLengths random = (n : ℕ) (b : Bytes) → random n ≡ some b → length b ≡ n
