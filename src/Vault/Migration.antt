-- ===== src/Vault/Migration.antt =====
-- `MigrateLegacyFromPassword` of internal/vault/vault.go.
use go_webssh.Base.{
  ℕ, ◌+◌, ◌≡◌, refl, inl, inr, true, false, Option, some, ok, arith, Result-cases, length,
}
use go_webssh.Text.{Text}
use go_webssh.Dict.{Dict, IsMap, lookup}
use go_webssh.Auth.Primitives.{Bytes}
use go_webssh.Vault.Primitives.{Library, Credential, Database, HasAead, HasLengths}
use go_webssh.Vault.{
  is_v2, encrypt_v2, decrypt, open_record, get, Move, untouched, moved, move_record, collect,
  put_all, migrate, legacy_count,
}
use go_webssh.Vault.Sealed.{decrypt_record-encrypt_v2}
use go_webssh.Vault.Collect.{lookup-put_all, collect-counts, collect-lookup-some, collect-IsMap}

-- The parts of a migration that succeeds.
migrate_parts :
    (lib : Library) (random : ℕ → Option Bytes) (salt key password : Bytes) (db after : Database)
    (moved_count remaining : ℕ)
    → migrate lib random salt key password db ≡ (ok (moved_count, remaining), after)
    → (out : Dict Bytes × ℕ) × (collect lib random (lib.derive password salt) key db.credentials
        ≡ ok out)
      × (moved_count ≡ length out.0)
      × (remaining ≡ out.1)
      × (after.credentials ≡ put_all out.0 db.credentials)
unfolding migrate
migrate_parts lib random salt key password db after moved_count remaining h =
    elim (Result-cases (collect lib random (lib.derive password salt) key db.credentials)) [
      | inr (e, fails) ↦ absurd (ground (arith, h, fails))
      | inl (out, collects) ↦ (
        out,
        collects,
        ground (arith, h, collects),
        ground (arith, h, collects),
        ground (arith, h, collects),
      )
    ]

-- A migration that succeeds accounts for every record of the old form: it was sealed anew or remains.
pub migrate-counts :
    (lib : Library) (random : ℕ → Option Bytes) (salt key password : Bytes) (db after : Database)
    (moved_count remaining : ℕ)
    → migrate lib random salt key password db ≡ (ok (moved_count, remaining), after)
    → moved_count + remaining ≡ legacy_count db.credentials
migrate-counts lib random salt key password db after moved_count remaining h =
    let (out, collects, moves, remain, e) =
      migrate_parts lib random salt key password db after moved_count remaining h in
    rw (moves, remain)
      (collect-counts lib random (lib.derive password salt) key db.credentials out collects)

-- A record of the old form is moved to a new one that holds the same text.
move_record-old :
    (lib : Library) (random : ℕ → Option Bytes) (legacy_key key : Bytes) (id : Text)
    (sealed text : Bytes) (c : Credential) (m : Move)
    → is_v2 sealed ≡ false
    → decrypt lib legacy_key sealed id ≡ some text
    → lib.unmarshal text ≡ some c
    → move_record lib random legacy_key key id sealed ≡ ok m
    → (fresh : Bytes) × (encrypt_v2 lib random key text id ≡ ok fresh) × (m ≡ moved fresh)
unfolding move_record
move_record-old lib random legacy_key key id sealed text c m old opens reads h =
    elim (Result-cases (encrypt_v2 lib random key text id)) [
      | inr (e, fails) ↦ absurd (ground (arith, h, old, opens, reads, fails))
      | inl (fresh, done) ↦ (fresh, done, ground (arith, h, old, opens, reads, done))
    ]

-- A record of the new form is left alone.
move_record-new :
    (lib : Library) (random : ℕ → Option Bytes) (legacy_key key : Bytes) (id : Text)
    (sealed : Bytes) (m : Move)
    → is_v2 sealed ≡ true
    → move_record lib random legacy_key key id sealed ≡ ok m
    → m ≡ untouched
unfolding move_record
move_record-new lib random legacy_key key id sealed m new h = ground (arith, h, new)

-- After a migration that succeeds, every record of the old form that the password opens reads, under
-- the master key, as the credential that it held.
pub get-migrate :
    (lib : Library) (random : ℕ → Option Bytes) (ciphers : HasAead lib)
    (lengths : HasLengths random) (salt key password : Bytes) (db after : Database)
    (moved_count remaining : ℕ) (id : Text) (sealed text : Bytes) (c : Credential)
    → migrate lib random salt key password db ≡ (ok (moved_count, remaining), after)
    → IsMap db.credentials
    → lookup id db.credentials ≡ some sealed
    → is_v2 sealed ≡ false
    → decrypt lib (lib.derive password salt) sealed id ≡ some text
    → lib.unmarshal text ≡ some c
    → get lib key id after ≡ ok c
unfolding get open_record
get-migrate lib random ciphers lengths salt key password db after moved_count remaining id sealed
      text c h unique found old opens reads =
    let (out, collects, moves, remain, e) =
      migrate_parts lib random salt key password db after moved_count remaining h in
    let legacy_key = lib.derive password salt in
    let (m, moved_by, written) =
      collect-lookup-some lib random legacy_key key id sealed db.credentials out collects unique
        found in
    let (fresh, done, is_moved) =
      move_record-old lib random legacy_key key id sealed text c m old opens reads moved_by in
    let there =
      lookup-put_all id out.0 db.credentials
        (collect-IsMap lib random legacy_key key db.credentials out collects unique) in
    let (marked, opened) =
      decrypt_record-encrypt_v2 lib random ciphers lengths key text id fresh done in
    rw (get, e, there, written, is_moved, opened, reads) refl

-- After a migration that succeeds, every record of the new form reads as before.
pub get-migrate_new :
    (lib : Library) (random : ℕ → Option Bytes) (salt key password : Bytes) (db after : Database)
    (moved_count remaining : ℕ) (id : Text) (sealed : Bytes)
    → migrate lib random salt key password db ≡ (ok (moved_count, remaining), after)
    → IsMap db.credentials
    → lookup id db.credentials ≡ some sealed
    → is_v2 sealed ≡ true
    → get lib key id after ≡ get lib key id db
unfolding get
get-migrate_new lib random salt key password db after moved_count remaining id sealed h unique found
      new =
    let (out, collects, moves, remain, e) =
      migrate_parts lib random salt key password db after moved_count remaining h in
    let legacy_key = lib.derive password salt in
    let (m, moved_by, written) =
      collect-lookup-some lib random legacy_key key id sealed db.credentials out collects unique
        found in
    let there =
      lookup-put_all id out.0 db.credentials
        (collect-IsMap lib random legacy_key key db.credentials out collects unique) in
    let left = move_record-new lib random legacy_key key id sealed m new moved_by in
    rw (get, e, there, written, left) refl
