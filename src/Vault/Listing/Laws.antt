-- ===== src/Vault/Listing/Laws.antt =====
-- The lists of credentials in internal/vault/vault.go: nothing is lost and nothing is made up.
use mathlib.Core.Logic.{∥∥₁_elim, ∥∥₁_map, ∥∥₁_prop, ◌∨₁◌}
use mathlib.Core.Logic.Or
use mathlib.Core.List.{
  Perm, Mem, Mem-prop, mem-cons_self, mem-cons_of_mem, not-mem-nil, eq-or-mem_of_mem-cons,
}
use mathlib.Core.List.Perm
use go_webssh.Base.{
  ℕ, ◌≡◌, sym, ◌∙◌, ap, inl, inr, ◌↔◌, Option, none, some, List, [], ◌∷◌, ok, arith, Option-cases,
  Bool-cases,
}
use go_webssh.Text.{Text, text_eq}
use go_webssh.Text.Laws.{text_eq_iff, text_eq_refl}
use go_webssh.Dict.{Dict, IsMap, lookup}
use go_webssh.Auth.Primitives.{Bytes}
use go_webssh.Vault.Primitives.{Library, Credential, Database}
use go_webssh.Vault.{get, open_record, decrypt_record}
use go_webssh.Vault.Listing.{readable, tally, open_all, list_available, list_all}

-- What `sort.Slice` does: it only moves the elements.
abbrev pub Reorders : {A : Type 0} → (List A → List A) → Type 0
Reorders {A} sort = (xs : List A) → Perm xs (sort xs)

-- One record of the loop.
module _ (c : Credential) (rest : List Credential × ℕ) where
  Mem-tally : (o : Option Credential) → Mem c ((tally o rest).0) → (o ≡ some c) ∨₁ Mem c (rest.0)
  Mem-tally none h = Or.inr h
  Mem-tally (some x) h =
      Or.elim ∥∥₁_prop (eq-or-mem_of_mem-cons h) (λ e. Or.inl (ap (λ y. some y) (sym e)))
        (λ m. Or.inr m)

  tally-opened : (o : Option Credential) → o ≡ some c → Mem c ((tally o rest).0)
  tally-opened none h = absurd (ground arith)
  tally-opened (some x) h = let e : x ≡ c = ground (arith, h) in rw e mem-cons_self

  tally-later : (o : Option Credential) → Mem c (rest.0) → Mem c ((tally o rest).0)
  tally-later none h = h
  tally-later (some x) h = mem-cons_of_mem x h

module _ (lib : Library) (key : Bytes) where
  -- A record that holds the credential.
  abbrev Holds : Dict Bytes → Credential → Type 0
  Holds records c =
      (id : Text) × (sealed : Bytes) × (lookup id records ≡ some sealed)
      × (readable lib key id sealed ≡ some c)

  Holds-later :
      (id : Text) (sealed : Bytes) (records : Dict Bytes) (c : Credential)
      → lookup id records ≡ none
      → Holds records c
      → Holds ((id, sealed) ∷ records) c
  unfolding lookup
  Holds-later id sealed records c fresh (other, raw, found, opens) =
      (other, raw, ground (arith, found, fresh, text_eq_iff id other), opens)

  Holds-opened :
      (id : Text) (sealed : Bytes) (records : Dict Bytes) (c : Credential)
      → readable lib key id sealed ≡ some c
      → Holds ((id, sealed) ∷ records) c
  unfolding lookup
  Holds-opened id sealed records c opens = (id, sealed, ground (arith, text_eq_refl id), opens)

  open_all-Holds :
      (records : Dict Bytes) (c : Credential)
      → IsMap records
      → Mem c ((open_all lib key records).0)
      → ∥ Holds records c ∥₁
  unfolding open_all
  open_all-Holds [] c map h = absurd (not-mem-nil h)
  open_all-Holds ((id, sealed) ∷ records) c (fresh, map) h =
      let later : Mem c ((open_all lib key records).0) → ∥ Holds ((id, sealed) ∷ records) c ∥₁ =
        λ m. ∥∥₁_map (open_all-Holds records c map m) (Holds-later id sealed records c fresh) in
      Or.elim ∥∥₁_prop (Mem-tally c (open_all lib key records) (readable lib key id sealed) h)
        (λ opens. ∣ Holds-opened id sealed records c opens ∣₁) later

  Holds-open_all :
      (records : Dict Bytes) (c : Credential)
      → Holds records c
      → Mem c ((open_all lib key records).0)
  unfolding open_all lookup
  Holds-open_all [] c (other, raw, found, opens) = absurd (ground arith)
  Holds-open_all ((id, sealed) ∷ records) c (other, raw, found, opens) =
      elim (Bool-cases (text_eq id other)) [
        | inl here ↦
            let same : id ≡ other = (text_eq_iff id other).0 here in
            let held : sealed ≡ raw = ground (arith, found, here) in
            tally-opened c (open_all lib key records) (readable lib key id sealed)
              (ap (readable lib key id) held ∙ ap (λ i. readable lib key i raw) same ∙ opens)
        | inr further ↦
            tally-later c (open_all lib key records) (readable lib key id sealed)
              (Holds-open_all records c (other, raw, ground (arith, found, further), opens))
      ]

  -- What is read under an id is what its record holds.
  get-readable :
      (db : Database) (c : Credential) (id : Text) (sealed : Bytes)
      → lookup id db.credentials ≡ some sealed
      → readable lib key id sealed ≡ some c
      → get lib key id db ≡ ok c
  unfolding get open_record readable
  get-readable db c id sealed found opens = elim (Option-cases (decrypt_record lib key sealed id)) [
    | inl closed ↦ absurd (ground (arith, opens, closed))
    | inr (text, opened) ↦ ground (arith, found, opens, opened)
  ]

  Holds-get :
      (db : Database) (c : Credential)
      → Holds db.credentials c
      → (id : Text) × (get lib key id db ≡ ok c)
  Holds-get db c (id, sealed, found, opens) = (id, get-readable db c id sealed found opens)

  get-Holds :
      (db : Database) (c : Credential) (id : Text)
      → get lib key id db ≡ ok c
      → Holds db.credentials c
  unfolding get open_record readable
  get-Holds db c id h = elim (Option-cases (lookup id db.credentials)) [
    | inl absent ↦ absurd (ground (arith, h, absent))
    | inr (sealed, found) ↦ elim (Option-cases (decrypt_record lib key sealed id)) [
      | inl closed ↦ absurd (ground (arith, h, found, closed))
      | inr (text, opened) ↦ (
        id,
        sealed,
        found,
        elim (Option-cases (lib.unmarshal text)) [
          | inl bad ↦ absurd (ground (arith, h, found, opened, bad))
          | inr (x, reads) ↦ ground (arith, h, found, opened, reads)
        ],
      )
    ]
  ]

  -- `ListAvailable` lists exactly the credentials that can be read under some id, whatever the order of
  -- the records and of the sort.
  pub list_available_iff :
      (by_name : List Credential → List Credential) (db : Database) (c : Credential)
      → Reorders by_name
      → IsMap db.credentials
      → Mem c ((list_available lib key by_name db).0)
        ↔ (∥ ((id : Text) × (get lib key id db ≡ ok c)) ∥₁)
  unfolding list_available
  list_available_iff by_name db c sorts map =
      let opened = open_all lib key db.credentials in
      let moves : Mem c (opened.0) ↔ Mem c (by_name (opened.0)) = Perm.mem_iff (sorts (opened.0)) in
      (
        λ m. ∥∥₁_map (open_all-Holds db.credentials c map (moves.1 m)) (Holds-get db c),
        λ k.
            ∥∥₁_elim k Mem-prop
              (λ (id, reads). moves.0 (Holds-open_all db.credentials c (get-Holds db c id reads))),
      )

  none_skipped :
      (records : Dict Bytes) (id : Text) (sealed : Bytes)
      → (open_all lib key records).1 ≡ 0
      → lookup id records ≡ some sealed
      → (c : Credential) × (readable lib key id sealed ≡ some c)
  unfolding open_all lookup
  none_skipped [] id sealed h found = absurd (ground arith)
  none_skipped ((other, raw) ∷ records) id sealed h found =
      elim (Option-cases (readable lib key other raw)) [
        | inl closed ↦ absurd (ground (arith, h, closed))
        | inr (c, opens) ↦ elim (Bool-cases (text_eq other id)) [
          | inl here ↦
              let same : other ≡ id = (text_eq_iff other id).0 here in
              let held : raw ≡ sealed = ground (arith, found, here) in
              (
                c,
                ap (readable lib key id) (sym held)
                    ∙ ap (λ i. readable lib key i raw) (sym same)
                    ∙ opens,
              )
          | inr further ↦
              none_skipped records id sealed (ground (arith, h, opens))
                (ground (arith, found, further))
        ]
      ]

  -- Where `List` answers, it lists a credential for every record.
  pub list_all_complete :
      (by_name : List Credential → List Credential) (db : Database) (found : List Credential)
      (id : Text) (sealed : Bytes)
      → Reorders by_name
      → list_all lib key by_name db ≡ ok found
      → lookup id db.credentials ≡ some sealed
      → (c : Credential) × (get lib key id db ≡ ok c) × Mem c found
  unfolding list_all list_available
  list_all_complete by_name db found id sealed sorts h there =
      let opened = open_all lib key db.credentials in
      let (c, opens) = none_skipped db.credentials id sealed (ground (arith, h)) there in
      let listed : by_name (opened.0) ≡ found = ground (arith, h) in
      let held : Holds db.credentials c = (id, sealed, there, opens) in
      (
        c,
        get-readable db c id sealed there opens,
        rw (sym listed)
            ((Perm.mem_iff (sorts (opened.0))).0 (Holds-open_all db.credentials c held)),
      )
