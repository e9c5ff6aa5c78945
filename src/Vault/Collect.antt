-- ===== src/Vault/Collect.antt =====
-- The records that `MigrateLegacyFromPassword` of internal/vault/vault.go gathers and writes back.
use go_webssh.Base.{
  ℕ, ◌+◌, ◌≡◌, refl, ◌∙◌, ap, ◌≢◌, inl, inr, false, Option, none, some, [], ◌∷◌, ok, arith,
  Option-cases, Result-cases, Bool-cases, if◌then◌else◌, length,
}
use go_webssh.Text.{Text, text_eq}
use go_webssh.Text.Laws.{text_eq_refl, text_eq_iff}
use go_webssh.Dict.{Dict, IsMap, lookup, insert, lookup-insert}
use go_webssh.Auth.Primitives.{Bytes}
use go_webssh.Vault.Primitives.{Library}
use go_webssh.Vault.{
  is_v2, encrypt_v2, decrypt, Move, untouched, remains, moved, move_record, gather, collect,
  put_all, legacy_count,
}

-- The first of two entries that is there.
abbrev pub first_of : Option Bytes → Option Bytes → Option Bytes
first_of (some b) later = some b
first_of none later = later

-- What is written back is found, and everything else is found as before.
pub lookup-put_all :
    (id : Text) (records credentials : Dict Bytes)
    → IsMap records
    → lookup id (put_all records credentials) ≡ first_of (lookup id records) (lookup id credentials)
unfolding put_all lookup
lookup-put_all id [] credentials h = refl
lookup-put_all id ((j, sealed) ∷ records) credentials (h, hs) = ground (
  arith,
  lookup-put_all id records (insert j sealed credentials) hs,
  lookup-insert j id sealed credentials,
  text_eq_iff j id,
)

-- What a record is replaced by.
abbrev pub replaced : Move → Option Bytes
replaced untouched = none
replaced remains = none
replaced (moved fresh) = some fresh

gather-IsMap :
    (id : Text) (m : Move) (rest : Dict Bytes × ℕ)
    → lookup id rest.0 ≡ none
    → IsMap rest.0
    → IsMap (gather id m rest).0
gather-IsMap id untouched rest h unique = unique
gather-IsMap id remains rest h unique = unique
gather-IsMap id (moved fresh) rest h unique = (h, unique)

-- Where nothing of that id is written back by the others, the move decides.
gather-lookup-same :
    (id : Text) (m : Move) (rest : Dict Bytes × ℕ)
    → lookup id rest.0 ≡ none
    → lookup id (gather id m rest).0 ≡ replaced m
unfolding lookup
gather-lookup-same id untouched rest h = h
gather-lookup-same id remains rest h = h
gather-lookup-same id (moved fresh) rest h = rw (text_eq_refl id) refl

module _ (lib : Library) (random : ℕ → Option Bytes) (legacy_key master_key : Bytes) where
  gather-lookup-none :
      (id j : Text) (m : Move) (rest : Dict Bytes × ℕ)
      → text_eq id j ≡ false
      → lookup j (gather id m rest).0 ≡ lookup j rest.0
  unfolding lookup
  gather-lookup-none id j untouched rest h = refl
  gather-lookup-none id j remains rest h = refl
  gather-lookup-none id j (moved fresh) rest h = rw h refl

  -- The parts of a collection that succeeds.
  collect_parts :
      (id : Text) (sealed : Bytes) (records : Dict Bytes) (out : Dict Bytes × ℕ)
      → collect lib random legacy_key master_key ((id, sealed) ∷ records) ≡ ok out
      → (m : Move) × (rest : Dict Bytes × ℕ) × (move_record lib random legacy_key master_key id
            sealed
          ≡ ok m)
        × (collect lib random legacy_key master_key records ≡ ok rest)
        × (out ≡ gather id m rest)
  unfolding collect
  collect_parts id sealed records out h =
      elim (Result-cases (move_record lib random legacy_key master_key id sealed)) [
        | inr (e, fails) ↦ absurd (ground (arith, h, fails))
        | inl (m, moves) ↦ elim (Result-cases (collect lib random legacy_key master_key records)) [
          | inr (e, fails) ↦ absurd (ground (arith, h, fails, moves))
          | inl (rest, collects) ↦ (m, rest, moves, collects, ground (arith, h, moves, collects))
        ]
      ]

  not_untouched :
      (id : Text) (sealed : Bytes)
      → is_v2 sealed ≡ false
      → move_record lib random legacy_key master_key id sealed ≢ ok untouched
  unfolding move_record
  not_untouched id sealed old h = elim (Option-cases (decrypt lib legacy_key sealed id)) [
    | inl shut ↦ absurd (ground (arith, h, old, shut))
    | inr (text, opens) ↦ elim (Option-cases (lib.unmarshal text)) [
      | inl broken ↦ absurd (ground (arith, h, old, opens, broken))
      | inr (c, reads) ↦ elim (Result-cases (encrypt_v2 lib random master_key text id)) [
        | inl (fresh, done) ↦ absurd (ground (arith, h, old, opens, reads, done))
        | inr (e, fails) ↦ absurd (ground (arith, h, old, opens, reads, fails))
      ]
    ]
  ]

  -- A record that is not of the new form is moved or remains.
  move_record-counts :
      (id : Text) (sealed : Bytes) (m : Move) (rest : Dict Bytes × ℕ)
      → move_record lib random legacy_key master_key id sealed ≡ ok m
      → length (gather id m rest).0 + (gather id m rest).1
        ≡ (if is_v2 sealed then length rest.0 + rest.1 else 1 + (length rest.0 + rest.1))
  unfolding move_record
  move_record-counts id sealed untouched rest h = elim (Bool-cases (is_v2 sealed)) [
    | inl new ↦ ground (arith, new)
    | inr old ↦ absurd (not_untouched id sealed old h)
  ]
  move_record-counts id sealed remains rest h = elim (Bool-cases (is_v2 sealed)) [
    | inl new ↦ absurd (ground (arith, h, new))
    | inr old ↦ ground (arith, old)
  ]
  move_record-counts id sealed (moved fresh) rest h = elim (Bool-cases (is_v2 sealed)) [
    | inl new ↦ absurd (ground (arith, h, new))
    | inr old ↦ ground (arith, old)
  ]

  pub collect-counts :
      (records : Dict Bytes) (out : Dict Bytes × ℕ)
      → collect lib random legacy_key master_key records ≡ ok out
      → length out.0 + out.1 ≡ legacy_count records
  unfolding legacy_count collect
  collect-counts [] out h = ground arith
  collect-counts ((id, sealed) ∷ records) out h =
      let (m, rest, moves, collects, e) = collect_parts id sealed records out h in
      ground
        (arith, e, move_record-counts id sealed m rest moves, collect-counts records rest collects)

  -- What is missing among the records is missing among those to write back.
  collect-lookup-none :
      (id : Text) (records : Dict Bytes) (out : Dict Bytes × ℕ)
      → collect lib random legacy_key master_key records ≡ ok out
      → lookup id records ≡ none
      → lookup id out.0 ≡ none
  unfolding collect lookup
  collect-lookup-none id [] out h missing = ground arith
  collect-lookup-none id ((j, sealed) ∷ records) out h missing =
      let (m, rest, moves, collects, e) = collect_parts j sealed records out h in
      ground
        (arith, e, gather-lookup-none j id m rest, collect-lookup-none id records rest collects)

  -- A record that is found is replaced as its move says.
  pub collect-lookup-some :
      (id : Text) (sealed : Bytes) (records : Dict Bytes) (out : Dict Bytes × ℕ)
      → collect lib random legacy_key master_key records ≡ ok out
      → IsMap records
      → lookup id records ≡ some sealed
      → (m : Move) × (move_record lib random legacy_key master_key id sealed ≡ ok m)
        × (lookup id out.0 ≡ replaced m)
  unfolding collect lookup
  collect-lookup-some id sealed [] out h unique found = absurd (ground arith)
  collect-lookup-some id sealed ((j, other) ∷ records) out h (absent, unique) found =
      let (m, rest, moves, collects, e) = collect_parts j other records out h in
      elim (Bool-cases (text_eq j id)) [
        | inl same ↦
            let here : j ≡ id = (text_eq_iff j id).0 same in
            let value : other ≡ sealed = ground (arith, found, same) in
            let at_j : lookup j out.0 ≡ replaced m =
              ap (λ r. lookup j r.0) e
              ∙ gather-lookup-same j m rest (collect-lookup-none j records rest collects absent) in
            (m, cc, cc)
        | inr differs ↦
            let (k, moved_by, written) =
              collect-lookup-some id sealed records rest collects unique
                (ground (arith, found, differs)) in
            (
              k,
              moved_by,
              ap (λ r. lookup id r.0) e ∙ gather-lookup-none j id m rest differs ∙ written,
            )
      ]

  pub collect-IsMap :
      (records : Dict Bytes) (out : Dict Bytes × ℕ)
      → collect lib random legacy_key master_key records ≡ ok out
      → IsMap records
      → IsMap out.0
  unfolding collect
  collect-IsMap [] out h unique = ground arith
  collect-IsMap ((j, other) ∷ records) out h (absent, unique) =
      let (m, rest, moves, collects, e) = collect_parts j other records out h in
      rw e (
        gather-IsMap j m rest (collect-lookup-none j records rest collects absent)
          (collect-IsMap records rest collects unique))
