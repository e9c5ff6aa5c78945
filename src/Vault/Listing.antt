-- ===== src/Vault/Listing.antt =====
-- `ListAvailable`, `List` and `ListSummaries` of internal/vault/vault.go. `sort.Slice`, from the order of a Go map, is
-- the parameter `by_name`.
pub mod Laws
pub mod Owned
pub mod Shown
mod Tests
use go_webssh.Base.{
  ℕ, ◌+◌, Bool, true, false, ◌&&◌, Option, none, some, List, [], ◌∷◌, ◌++◌, Result, ok, err, ◌>>=◌,
  or_fail, if◌then◌else◌, is_empty, is_some, map, ltb,
}
use go_webssh.Text.{Text, text_eq}
use go_webssh.Dict.{Dict, lookup, insert}
use go_webssh.Auth.Primitives.{Bytes}
use go_webssh.Vault.Primitives.{
  Library, Credential, Summary, Database, VaultError, owner_required, no_json, cannot_decrypt,
}
use go_webssh.Vault.{is_v2, decrypt_record, summary_of}

abbrev pub value_of : Text × Summary → Summary
value_of entry = entry.1

-- One record of the loop of `ListAvailable`.
abbrev pub tally : Option Credential → List Credential × ℕ → List Credential × ℕ
tally none rest = (rest.0, 1 + rest.1)
tally (some c) rest = (c ∷ rest.0, rest.1)

module _ (lib : Library) (key : Bytes) where
  -- What a record holds, if it opens.
  unfoldable pub readable : Text → Bytes → Option Credential
  readable id sealed = elim (decrypt_record lib key sealed id) [
    | none ↦ none
    | some plaintext ↦ lib.unmarshal plaintext
  ]

  -- The loop of `ListAvailable`: what opens, and how many do not.
  unfoldable pub open_all : Dict Bytes → List Credential × ℕ
  unfolding readable
  open_all [] = ([], 0)
  open_all ((id, sealed) ∷ records) = tally (readable id sealed) (open_all records)

  -- `ListAvailable`
  unfoldable pub list_available :
      (List Credential → List Credential) → Database → List Credential × ℕ
  list_available by_name db =
      let (found, skipped) = open_all db.credentials in (by_name found, skipped)

  -- `List`
  unfoldable pub list_all :
      (List Credential → List Credential) → Database → Result VaultError (List Credential)
  list_all by_name db =
      let (found, skipped) = list_available by_name db in
      if ltb 0 skipped then err cannot_decrypt else ok found

  -- The ids whose summary can be read.
  unfoldable pub known : Text → Dict Bytes → Bool
  known id summaries = elim (lookup id summaries) [
    | none ↦ false
    | some raw ↦ is_some (lib.unmarshal_summary raw)
  ]

  -- The summaries of the owner, by their keys.
  unfoldable pub owned : Text → Dict Bytes → Dict Summary
  unfolding text_eq
  owned owner [] = []
  owned owner ((id, raw) ∷ summaries) =
      let rest = owned owner summaries in
      elim (lib.unmarshal_summary raw) [
        | none ↦ rest
        | some s ↦ if text_eq s.owner owner then insert id s rest else rest
      ]

  -- The loop over the credentials: those without a summary, each with one for the owner, and the count of legacy
  -- records.
  unfoldable pub backfill : Text → Dict Bytes → Dict Bytes → List Summary × ℕ
  unfolding known readable is_v2
  backfill owner summaries [] = ([], 0)
  backfill owner summaries ((id, sealed) ∷ records) =
      let (added, count) = backfill owner summaries records in
      let legacy = if is_v2 sealed then count else 1 + count in
      if known id summaries then (added, legacy) else elim (readable id sealed) [
        | none ↦ (added, legacy)
        | some c ↦ (summary_of c owner ∷ added, legacy)
      ]

  -- `summaries[credential.ID] = summary`, for all of them
  unfoldable pub add_all : List Summary → Dict Summary → Dict Summary
  add_all [] summaries = summaries
  add_all (s ∷ added) summaries = add_all added (insert s.id s summaries)

  -- The transaction that stores the summaries that were missing.
  unfoldable pub store_all : List Summary → Dict Bytes → Result VaultError (Dict Bytes)
  store_all [] bucket = ok bucket
  store_all (s ∷ added) bucket = do
    raw ← or_fail (lib.marshal_summary s) no_json
    store_all added (insert s.id raw bucket)

  -- `ListSummaries`: the summaries in the order of their names, and the count of legacy records. The
  -- transaction is skipped where nothing is missing, which leaves the bucket as it is.
  unfoldable pub list_summaries :
      (List Summary → List Summary)
      → Text
      → Database
      → Result VaultError (List Summary × ℕ) × Database
  unfolding owned backfill add_all
  list_summaries by_name owner db =
      if is_empty owner
      then (err owner_required, db)
      else let (added, legacy) = backfill owner db.summaries db.credentials in
        let shown = add_all added (owned owner db.summaries) in
        elim (store_all added db.summaries) [
          | err e ↦ (err e, db)
          | ok bucket ↦
              (ok (by_name (map value_of shown), legacy), record db { summaries = bucket })
        ]
