-- ===== src/Vault/Open.antt =====
-- `Open`, `loadMasterKey` and `decodeMasterKey` of internal/vault/vault.go, over the contents of the
-- disk and what of the platform's calls succeeds.
pub mod Keys
pub mod Laws
mod Tests
use go_webssh.Base.{
  ℕ, Bool, true, false, not, ◌&&◌, Option, none, some, List, [], ◌∷◌, ◌++◌, Result, ok, err, ◌>>=◌,
  ◌>>◌, fail_if, or_fail, if◌then◌else◌, is_empty, length, ◌==◌,
}
use go_webssh.Text.{Text, codes, text_eq, trim_space}
use go_webssh.Text.Hex.{hex_decode, hex_encode}
use go_webssh.Dict.{Dict, lookup, insert, erase}
use go_webssh.Auth.Primitives.{Bytes}

-- `OpenOptions`
pub record OpenOptions : Type 0 where
  pub key_file : Text
  pub key_hex : Text

-- What is at a path: a symbolic link, a file that cannot be inspected, or one with its contents.
pub data Entry : Type 0 where
  symlink unreadable : Entry
  file : Text → Entry

-- Which calls succeed, what the random source returns, and SHA-256.
pub record Platform : Type 0 where
  pub open_ok : Bool
  pub chmod_ok : Bool
  pub read_ok : Bool
  pub create_ok : Bool
  pub write_ok : Bool
  pub sync_ok : Bool
  pub close_ok : Bool
  pub update_ok : Bool
  pub random : ℕ → Option Bytes
  pub sha256 : Bytes → Bytes

-- The `meta` bucket: a value that is absent is empty.
pub record Meta : Type 0 where
  pub salt : Bytes
  pub fingerprint : Bytes

-- `Store`, with its database apart.
pub record Opened : Type 0 where
  pub salt : Bytes
  pub master_key : Bytes

pub data OpenError : Type 0 where
  open_failed initialize_failed secure_failed invalid_key : OpenError
  key_is_link key_unreadable key_not_secured key_missing : OpenError
  no_random key_not_created key_not_written wrong_key fingerprint_failed : OpenError

-- `decodeMasterKey`
unfoldable pub decode_master_key : Text → Option Bytes
unfolding hex_decode trim_space
decode_master_key value = elim (hex_decode (trim_space value)) [
  | none ↦ none
  | some decoded ↦ if length decoded == 32 then some decoded else none
]

-- The key in a file that is there.
unfoldable pub read_key_file : Platform → Text → Result OpenError Bytes
read_key_file p contents = do
  fail_if (not p.read_ok) key_unreadable
  fail_if (not p.chmod_ok) key_not_secured
  or_fail (decode_master_key contents) invalid_key

-- A new key, in a new file; where writing it fails, the file is removed again.
unfoldable pub create_key_file : Platform → Text → Dict Entry → Result OpenError Bytes × Dict Entry
unfolding insert
create_key_file p path disk = elim (p.random 32) [
  | none ↦ (err no_random, disk)
  | some key ↦
      if not p.create_ok
      then (err key_not_created, disk)
      else if not (p.write_ok && p.sync_ok && p.close_ok)
      then (err key_not_written, disk)
      else (ok key, insert path (file (hex_encode key ++ codes "\n")) disk)
]

-- `loadMasterKey`
unfoldable pub load_master_key :
    Platform → OpenOptions → Bool → Dict Entry → Result OpenError Bytes × Dict Entry
unfolding read_key_file create_key_file
load_master_key p opts allow_create disk =
    if not (is_empty (trim_space opts.key_hex))
    then (or_fail (decode_master_key opts.key_hex) invalid_key, disk)
    else elim (lookup opts.key_file disk) [
      | some symlink ↦ (err key_is_link, disk)
      | some unreadable ↦ (err key_unreadable, disk)
      | some (file contents) ↦ (read_key_file p contents, disk)
      | none ↦
          if not allow_create then (err key_missing, disk) else create_key_file p opts.key_file disk
    ]

-- The path of the key file, where none is given.
unfoldable pub options_for : Text → Option OpenOptions → OpenOptions
options_for path none = record { key_file = path ++ codes ".key"; key_hex = [] }
options_for path (some opts) =
    if is_empty (trim_space opts.key_file)
    then record opts { key_file = path ++ codes ".key" }
    else opts

-- The first transaction: a salt is made where there is none.
unfoldable pub initialize : Platform → Meta → Result OpenError Meta
initialize p meta =
    if is_empty meta.salt
    then (elim (p.random 16) [
      | none ↦ err initialize_failed
      | some salt ↦ ok (record meta { salt = salt })
    ])
    else ok meta

-- The fingerprint is compared, or stored where there is none.
unfoldable pub check_fingerprint : Platform → Bytes → Meta → Result OpenError Meta
check_fingerprint p key meta =
    if is_empty meta.fingerprint
    then (if p.update_ok
        then ok (record meta { fingerprint = p.sha256 key })
        else err fingerprint_failed)
    else if text_eq meta.fingerprint (p.sha256 key)
    then ok meta
    else err wrong_key

-- What is left behind: the result, the `meta` bucket and the disk.
abbrev pub Left : Type 0
Left = Result OpenError Opened × Meta × Dict Entry

-- What follows the key, on its result and the disk behind it.
unfoldable pub finish : Platform → Meta → Result OpenError Bytes × Dict Entry → Left
unfolding check_fingerprint
finish p meta (err e, disk) = (err e, meta, disk)
finish p meta (ok key, disk) = elim (check_fingerprint p key meta) [
  | err e ↦ (err e, meta, disk)
  | ok kept ↦ (ok (record { salt = kept.salt; master_key = key }), kept, disk)
]

-- `Open`
unfoldable pub open_vault : Platform → Text → Option OpenOptions → Meta → Dict Entry → Left
unfolding initialize finish load_master_key options_for
open_vault p path given meta disk =
    if not p.open_ok then (err open_failed, meta, disk) else elim (initialize p meta) [
      | err e ↦ (err e, meta, disk)
      | ok salted ↦
          if not p.chmod_ok
          then (err secure_failed, salted, disk)
          else finish p salted
              (load_master_key p (options_for path given) (is_empty salted.fingerprint) disk)
    ]

-- `zero`
unfoldable pub zeroed : Bytes → Bytes
zeroed [] = []
zeroed (b ∷ bs) = 0 ∷ zeroed bs

-- `Close`: both secrets are overwritten.
unfoldable pub close_vault : Opened → Opened
unfolding zeroed
close_vault s = record { salt = zeroed s.salt; master_key = zeroed s.master_key }
