-- ===== src/Vault/Records.antt =====
-- Storing, reading and deleting credentials in internal/vault/vault.go.
use go_webssh.Base.{
  ℕ, ◌≡◌, refl, ◌∙◌, ap, ◌≢◌, inl, inr, Option, none, some, ok, err, arith, Option-cases,
  Result-cases, ◌>>=◌, or_fail,
}
use go_webssh.Text.{Text}
use go_webssh.Text.Laws.{text_eq_refl, text_eq-false}
use go_webssh.Dict.{Dict, lookup, insert, erase, lookup-insert, lookup-erase}
use go_webssh.Auth.Primitives.{Bytes}
use go_webssh.Vault.Primitives.{
  Library, Credential, Database, not_found, no_json, IsJson, HasAead, HasLengths,
}
use go_webssh.Vault.{encrypt_v2, open_record, get, completed, write, put_for_user, delete}
use go_webssh.Vault.Sealed.{decrypt_record-encrypt_v2}

lookup-insert_same : (k : Text) (v : Bytes) (m : Dict Bytes) → lookup k (insert k v m) ≡ some v
lookup-insert_same k v m = lookup-insert k k v m ∙ rw (text_eq_refl k) refl

lookup-insert_other :
    (k j : Text) (v : Bytes) (m : Dict Bytes) → k ≢ j → lookup j (insert k v m) ≡ lookup j m
lookup-insert_other k j v m n = lookup-insert k j v m ∙ rw (text_eq-false k j n) refl

-- A transaction that succeeds has stored the record under the credential's id, and only there.
write-stores :
    (lib : Library) (owner : Text) (c out : Credential) (sealed : Bytes) (db after : Database)
    → write lib owner c sealed db ≡ (ok out, after)
    → (out ≡ c) × (after.credentials ≡ insert c.id sealed db.credentials)
unfolding write
write-stores lib owner c out sealed db after h = ground arith

module _ (lib : Library) (random : ℕ → Option Bytes) (ciphers : HasAead lib)
    (lengths : HasLengths random) (json : IsJson lib) where
  -- A credential that was marshalled and sealed for its id is opened.
  open_record-sealed :
      (key : Bytes) (c : Credential) (sealed : Bytes)
      → (or_fail (lib.marshal c) no_json >>= λ text. encrypt_v2 lib random key text c.id)
        ≡ ok sealed
      → open_record lib key c.id (some sealed) ≡ ok c
  unfolding open_record
  open_record-sealed key c sealed h = elim (Option-cases (lib.marshal c)) [
    | inl fails ↦ absurd (ground arith)
    | inr (text, done) ↦
        let (marked, opens) =
          decrypt_record-encrypt_v2 lib random ciphers lengths key text c.id sealed
            (ground (arith, h, done)) in
        rw (opens, json.reads c text done) refl
  ]

  -- A credential that is saved is read back under its id as it was saved, and every other id reads as
  -- before.
  pub get-put_for_user :
      (now : ℕ) (fresh : Text) (key : Bytes) (owner : Text) (given out : Credential)
      (db after : Database)
      → put_for_user lib now random fresh key owner given db ≡ (ok out, after)
      → (get lib key out.id after ≡ ok out)
        × ((id : Text) → out.id ≢ id → get lib key id after ≡ get lib key id db)
  unfolding put_for_user get
  get-put_for_user now fresh key owner given out db after h =
      let existing : Option Credential = elim (get lib key given.id db) [
        | ok e ↦ some e
        | err _ ↦ none
      ] in
      let c : Credential = completed now fresh existing given in
      elim (Result-cases
        (or_fail (lib.marshal c) no_json >>= λ text. encrypt_v2 lib random key text c.id)) [
          | inr (e, fails) ↦ absurd (ground (arith, h, fails))
          | inl (sealed, done) ↦
              let (same, stored) =
                write-stores lib owner c out sealed db after (ground (arith, h, done)) in
              (
                rw (same, get, stored, lookup-insert_same c.id sealed db.credentials)
                    (open_record-sealed key c sealed done),
                λ id n.
                    rw
                      (
                        get,
                        stored,
                        lookup-insert_other c.id id sealed db.credentials
                            (λ e. n (ap (λ r. r.id) same ∙ e)),
                      )
                      refl,
              )
        ]

-- What is saved is the given credential, completed.
pub put_for_user-completes :
    (lib : Library) (random : ℕ → Option Bytes) (now : ℕ) (fresh : Text) (key : Bytes)
    (owner : Text) (given out : Credential) (db after : Database)
    → put_for_user lib now random fresh key owner given db ≡ (ok out, after)
    → (existing : Option Credential) × (out ≡ completed now fresh existing given)
unfolding put_for_user
put_for_user-completes lib random now fresh key owner given out db after h =
    let existing : Option Credential = elim (get lib key given.id db) [
      | ok e ↦ some e
      | err _ ↦ none
    ] in
    let c : Credential = completed now fresh existing given in
    elim (Result-cases
      (or_fail (lib.marshal c) no_json >>= λ text. encrypt_v2 lib random key text c.id)) [
        | inr (e, fails) ↦ absurd (ground (arith, h, fails))
        | inl (sealed, sealing) ↦
            let (same, stored) =
              write-stores lib owner c out sealed db after (ground (arith, h, sealing)) in
            (existing, same)
      ]

-- A credential that is deleted is not found afterwards, and every other id reads as before.
pub get-delete :
    (lib : Library) (key : Bytes) (id : Text) (db after : Database)
    → delete id db ≡ (ok tt, after)
    → (get lib key id after ≡ err not_found)
      × ((other : Text) → id ≢ other → get lib key other after ≡ get lib key other db)
unfolding delete get open_record
get-delete lib key id db after h =
    let erased : after.credentials ≡ erase id db.credentials = ground arith in
    (
      rw (get, erased, lookup-erase id id db.credentials, text_eq_refl id) refl,
      λ other n.
          rw (get, erased, lookup-erase id other db.credentials, text_eq-false id other n) refl,
    )
