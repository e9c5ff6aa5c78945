-- ===== src/Vault.antt =====
-- internal/vault/vault.go: sealed records, the operations on credentials, and the migration of records
-- that an earlier version sealed.
pub mod Primitives
pub mod Sealed
pub mod Records
pub mod Collect
pub mod Migration
pub mod Open
pub mod Listing
pub mod Sample
mod Tests
pub use Primitives.*
use go_webssh.Base.{
  ℕ, ◌+◌, Bool, true, false, not, ◌&&◌, Option, none, some, List, [], ◌∷◌, ◌++◌, Result, ok, err,
  if◌then◌else◌, is_empty, length, take, drop, ltb, ◌>>=◌, or_fail,
}
use go_webssh.Int.{ℤ, pos, eq_ℤ}
use go_webssh.Text.{Text, codes, text_eq}
use go_webssh.Dict.{Dict, lookup, insert, erase}
use go_webssh.Auth.Primitives.{Bytes, Aead}

abbrev pub v2_prefix : Bytes
v2_prefix = codes "GWS2"

-- `isV2`
unfoldable pub is_v2 : Bytes → Bool
unfolding text_eq
is_v2 sealed = ltb (length v2_prefix) (length sealed) && text_eq (take 4 sealed) v2_prefix

-- `Credential.Summary`
unfoldable pub summary_of : Credential → Text → Summary
summary_of c owner = record {
  id = c.id;
  owner = owner;
  name = c.name;
  host = c.host;
  port = c.port;
  username = c.username;
  term = c.term;
  use_herdr = c.use_herdr;
  has_private_key = not (is_empty c.private_key);
  has_passphrase = not (is_empty c.passphrase);
  updated_at = c.updated_at;
}

-- The credential as it is stored: with an id, its times, and the default port and terminal.
unfoldable pub completed : ℕ → Text → Option Credential → Credential → Credential
completed now fresh existing c =
    let created = if is_empty c.id then some now else (elim c.created_at [
      | some t ↦ some t
      | none ↦ elim existing [ none ↦ none | some e ↦ e.created_at ]
    ]) in
    record c {
      id = if is_empty c.id then fresh else c.id;
      created_at = created;
      updated_at = some now;
      port = if eq_ℤ c.port (pos 0) then pos 22 else c.port;
      term = if is_empty c.term then codes "xterm-256color" else c.term;
    }

module _ (lib : Library) where
  -- `encrypt`, over what the random source returns
  unfoldable pub encrypt : (ℕ → Option Bytes) → Bytes → Bytes → Bytes → Result VaultError Bytes
  encrypt random key plaintext aad = do
    aead ← or_fail (lib.aead key) no_cipher
    nonce ← or_fail (random aead.nonce_size) no_random
    ok (nonce ++ aead.seal nonce plaintext aad)

  -- `encryptV2`
  unfoldable pub encrypt_v2 : (ℕ → Option Bytes) → Bytes → Bytes → Bytes → Result VaultError Bytes
  encrypt_v2 random key plaintext aad =
      encrypt random key plaintext aad >>= λ sealed. ok (v2_prefix ++ sealed)

  -- `decrypt`
  unfoldable pub decrypt : Bytes → Bytes → Bytes → Option Bytes
  decrypt key sealed aad = elim (lib.aead key) [
    | none ↦ none
    | some aead ↦
        if ltb (length sealed) aead.nonce_size
        then none
        else aead.unseal (take aead.nonce_size sealed) (drop aead.nonce_size sealed) aad
  ]

  -- `decryptRecord`
  unfoldable pub decrypt_record : Bytes → Bytes → Bytes → Option Bytes
  unfolding is_v2
  decrypt_record master_key sealed aad =
      if is_v2 sealed then decrypt master_key (drop 4 sealed) aad else none

  -- What a sealed record holds.
  unfoldable pub open_record : Bytes → Text → Option Bytes → Result VaultError Credential
  open_record master_key id found = do
    sealed ← or_fail found not_found
    plaintext ← or_fail (decrypt_record master_key sealed id) cannot_decrypt
    or_fail (lib.unmarshal plaintext) no_json

  -- `Get`
  unfoldable pub get : Bytes → Text → Database → Result VaultError Credential
  get master_key id db = open_record master_key id (lookup id db.credentials)

  -- The transaction of `PutForUser`: the record, and the summary if there is an owner. Where it fails,
  -- nothing is kept.
  unfoldable pub write :
      Text → Credential → Bytes → Database → Result VaultError Credential × Database
  write owner c sealed db =
      let credentials = insert c.id sealed db.credentials in
      if is_empty owner
      then (ok c, record db { credentials = credentials })
      else elim (lib.marshal_summary (summary_of c owner)) [
        | none ↦ (err no_json, db)
        | some raw ↦
            (ok c, record { credentials = credentials; summaries = insert c.id raw db.summaries })
      ]

  -- `PutForUser`, at a time, with a fresh id
  unfoldable pub put_for_user :
      ℕ
      → (ℕ → Option Bytes)
      → Text
      → Bytes
      → Text
      → Credential
      → Database
      → Result VaultError Credential × Database
  put_for_user now random fresh master_key owner given db =
      let existing : Option Credential = elim (get master_key given.id db) [
        | ok e ↦ some e
        | err _ ↦ none
      ] in
      let c = completed now fresh existing given in
      elim (or_fail (lib.marshal c) no_json >>= λ text. encrypt_v2 random master_key text c.id) [
        | err e ↦ (err e, db)
        | ok sealed ↦ write owner c sealed db
      ]

-- `Delete`
unfoldable pub delete : Text → Database → Result VaultError (Unit {0}) × Database
delete id db = if is_empty id then (err id_required, db) else (
  ok tt,
  record { credentials = erase id db.credentials; summaries = erase id db.summaries },
)

-- `LegacyCount`
unfoldable pub legacy_count : Dict Bytes → ℕ
unfolding is_v2
legacy_count [] = 0
legacy_count ((id, sealed) ∷ records) =
    let rest = legacy_count records in if is_v2 sealed then rest else 1 + rest

-- What `MigrateLegacyFromPassword` makes of one record: it is left alone, it remains, or it is sealed
-- anew.
pub data Move : Type 0 where
  untouched remains : Move
  moved : Bytes → Move

-- What a record adds to the records that are written back and to the count of those that remain.
abbrev pub gather : Text → Move → Dict Bytes × ℕ → Dict Bytes × ℕ
gather id untouched rest = rest
gather id remains rest = (rest.0, 1 + rest.1)
gather id (moved fresh) rest = ((id, fresh) ∷ rest.0, rest.1)

module _ (lib : Library) (random : ℕ → Option Bytes) (legacy_key master_key : Bytes) where
  unfoldable pub move_record : Text → Bytes → Result VaultError Move
  unfolding is_v2
  move_record id sealed =
      if is_v2 sealed then ok untouched else elim (decrypt lib legacy_key sealed id) [
        | none ↦ ok remains
        | some plaintext ↦ elim (lib.unmarshal plaintext) [
          | none ↦ ok remains
          | some c ↦ encrypt_v2 lib random master_key plaintext id >>= λ fresh. ok (moved fresh)
        ]
      ]

  -- The view of all records: those to write back, and the count of those that remain.
  unfoldable pub collect : Dict Bytes → Result VaultError (Dict Bytes × ℕ)
  unfolding move_record
  collect [] = ok ([], 0)
  collect ((id, sealed) ∷ records) = do
    move ← move_record id sealed
    rest ← collect records
    ok (gather id move rest)

-- The transaction that writes the records back.
unfoldable pub put_all : Dict Bytes → Dict Bytes → Dict Bytes
put_all [] credentials = credentials
put_all ((id, sealed) ∷ records) credentials = put_all records (insert id sealed credentials)

-- `MigrateLegacyFromPassword`: how many records were sealed anew, and how many remain.
unfoldable pub migrate :
    Library
    → (ℕ → Option Bytes)
    → Bytes
    → Bytes
    → Bytes
    → Database
    → Result VaultError (ℕ × ℕ) × Database
migrate lib random salt master_key password db =
    if is_empty password
    then (err password_required, db)
    else elim (collect lib random (lib.derive password salt) master_key db.credentials) [
      | err e ↦ (err e, db)
      | ok found ↦
          (ok (length found.0, found.1), record db { credentials = put_all found.0 db.credentials })
    ]
