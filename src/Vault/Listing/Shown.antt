-- ===== src/Vault/Listing/Shown.antt =====
-- Where the summaries that `ListSummaries` shows come from, and what it counts.
use go_webssh.Base.{
  ◌≡◌, refl, ◌⊎◌, inl, inr, false, none, some, List, [], ◌∷◌, arith, All, Some, Option-cases,
  Bool-cases, map,
}
use go_webssh.Text.{Text, text_eq}
use go_webssh.Dict.{Dict, insert, lookup}
use go_webssh.Auth.Primitives.{Bytes}
use go_webssh.Vault.Primitives.{Library, Credential, Summary, Database}
use go_webssh.Vault.{legacy_count, summary_of}
use go_webssh.Vault.Listing.{known, readable, owned, backfill, add_all, value_of}

module _ (lib : Library) (key : Bytes) (owner : Text) (db : Database) where
  -- A summary that stands in the database.
  abbrev pub Kept : Summary → Type 0
  Kept s = Some (λ entry. lib.unmarshal_summary (entry.1) ≡ some s) db.summaries

  -- No summary that can be read stands under the id.
  abbrev pub Unknown : Text → Type 0
  Unknown id = (raw : Bytes) → lookup id db.summaries ≡ some raw → lib.unmarshal_summary raw ≡ none

  -- The record holds a credential, under an id without a summary, and the summary is the credential's, for the owner.
  abbrev pub IsMissing : Summary → Text × Bytes → Type 0
  IsMissing s entry =
      (c : Credential) × (readable lib key entry.0 entry.1 ≡ some c)
      × Unknown entry.0
      × (s ≡ summary_of c owner)

  -- A summary for the owner of a credential that can be read and has none under the id of its record.
  abbrev pub Added : Summary → Type 0
  Added s =
      Some
        (λ entry.
          (c : Credential) × (readable lib key entry.0 entry.1 ≡ some c)
          × Unknown entry.0
          × (s ≡ summary_of c owner))
        db.credentials

  credentials-All :
      (records : Dict Bytes)
      → ((s : Summary) → Some (IsMissing s) records → Added s)
      → All
          (λ entry.
            (c : Credential)
            → readable lib key entry.0 entry.1 ≡ some c
            → Unknown entry.0
            → Kept (summary_of c owner) ⊎ Added (summary_of c owner))
          records
  credentials-All [] into = tt
  credentials-All (entry ∷ records) into = (
    λ c opens unknown. inr (into (summary_of c owner) (inl (c, opens, unknown, refl))),
    credentials-All records (λ s h. into s (inr h)),
  )

  summaries-All :
      (m : Dict Bytes)
      → ((s : Summary) → Some (λ entry. lib.unmarshal_summary (entry.1) ≡ some s) m → Kept s)
      → All (λ entry. (s : Summary) → lib.unmarshal_summary (entry.1) ≡ some s → Kept s ⊎ Added s) m
  summaries-All [] into = tt
  summaries-All (entry ∷ m) into =
      (λ s reads. inl (into s (inl reads)), summaries-All m (λ s h. into s (inr h)))

  known-Unknown : (id : Text) → known lib key id db.summaries ≡ false → Unknown id
  unfolding known
  known-Unknown id h raw found = elim (Option-cases (lib.unmarshal_summary raw)) [
    | inl unread ↦ unread
    | inr (s, reads) ↦ absurd (ground (arith, h, found, reads))
  ]

  insert-All :
      (P : Summary → Type 0) (id : Text) (s : Summary) (m : Dict Summary)
      → P s
      → All P (map value_of m)
      → All P (map value_of (insert id s m))
  unfolding insert
  insert-All P id s [] p h = (p, tt)
  insert-All P id s ((other, t) ∷ m) p (q, h) = elim (Bool-cases (text_eq other id)) [
    | inl same ↦ rw same (p, h)
    | inr differs ↦ rw differs (q, insert-All P id s m p h)
  ]

  -- The property of each summary that was read.
  owned-All :
      (P : Summary → Type 0) (m : Dict Bytes)
      → All (λ entry. (s : Summary) → lib.unmarshal_summary (entry.1) ≡ some s → P s) m
      → All P (map value_of (owned lib key owner m))
  unfolding owned
  owned-All P [] h = tt
  owned-All P ((id, raw) ∷ m) (p, h) = elim (Option-cases (lib.unmarshal_summary raw)) [
    | inl bad ↦ rw (owned, bad) (owned-All P m h)
    | inr (s, reads) ↦ elim (Bool-cases (text_eq s.owner owner)) [
      | inl own ↦
          rw (owned, reads, own)
            (insert-All P id s (owned lib key owner m) (p s reads) (owned-All P m h))
      | inr other ↦ rw (owned, reads, other) (owned-All P m h)
    ]
  ]

  backfill-All :
      (P : Summary → Type 0) (records : Dict Bytes)
      → All
          (λ entry.
            (c : Credential)
            → readable lib key entry.0 entry.1 ≡ some c
            → Unknown entry.0
            → P (summary_of c owner))
          records
      → All P ((backfill lib key owner db.summaries records).0)
  unfolding backfill
  backfill-All P [] h = tt
  backfill-All P ((id, sealed) ∷ records) (p, h) =
      elim (Bool-cases (known lib key id db.summaries)) [
        | inl there ↦ rw (backfill, there) (backfill-All P records h)
        | inr missing ↦ elim (Option-cases (readable lib key id sealed)) [
          | inl closed ↦ rw (backfill, missing, closed) (backfill-All P records h)
          | inr (c, opens) ↦
              rw (backfill, missing, opens)
                (p c opens (known-Unknown id missing), backfill-All P records h)
        ]
      ]

  add_all-All :
      (P : Summary → Type 0) (added : List Summary) (m : Dict Summary)
      → All P added
      → All P (map value_of m)
      → All P (map value_of (add_all lib key added m))
  unfolding add_all
  add_all-All P [] m h k = k
  add_all-All P (s ∷ added) m (p, h) k =
      add_all-All P added (insert s.id s m) h (insert-All P s.id s m p k)

  -- What is shown was kept or is added.
  pub shown-All :
      All
        (λ s. Kept s ⊎ Added s)
        (map value_of (
          add_all lib key
            ((backfill lib key owner db.summaries db.credentials).0)
            (owned lib key owner db.summaries)))
  shown-All =
      let P : Summary → Type 0 = λ s. Kept s ⊎ Added s in
      add_all-All P ((backfill lib key owner db.summaries db.credentials).0)
        (owned lib key owner db.summaries)
        (backfill-All P db.credentials (credentials-All db.credentials (λ s h. h)))
        (owned-All P db.summaries (summaries-All db.summaries (λ s h. h)))

pub legacy_count-backfill :
    (lib : Library) (key : Bytes) (owner : Text) (m records : Dict Bytes)
    → (backfill lib key owner m records).1 ≡ legacy_count records
unfolding backfill legacy_count
legacy_count-backfill lib key owner m [] = refl
legacy_count-backfill lib key owner m ((id, sealed) ∷ records) =
    elim (Option-cases (readable lib key id sealed)) [
      | inl closed ↦ ground (arith, closed, legacy_count-backfill lib key owner m records)
      | inr (c, opens) ↦ ground (arith, opens, legacy_count-backfill lib key owner m records)
    ]
