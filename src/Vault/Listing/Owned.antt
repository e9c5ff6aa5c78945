-- ===== src/Vault/Listing/Owned.antt =====
-- Whose summaries `ListSummaries` of internal/vault/vault.go lists.
use mathlib.Core.Logic.{∥∥₁_prop}
use mathlib.Core.Logic.Or
use mathlib.Core.List.{Mem, not-mem-nil, eq-or-mem_of_mem-cons}
use mathlib.Core.List.Perm
use go_webssh.Base.{
  ℕ, ◌⊎◌, ◌≡◌, ◌∙◌, ap, inl, inr, Bool, true, List, [], ◌∷◌, ok, arith, All, Option-cases,
  Bool-cases, Result-cases, is_empty, map,
}
use go_webssh.Text.{Text, text_eq}
use go_webssh.Text.Laws.{text_eq_iff, text_eq_refl}
use go_webssh.Dict.{Dict, insert}
use go_webssh.Auth.Primitives.{Bytes}
use go_webssh.Vault.Primitives.{Library, Summary, Database}
use go_webssh.Vault.{legacy_count, summary_of}
use go_webssh.Vault.Listing.{
  readable, owned, backfill, add_all, store_all, value_of, list_summaries,
}
use go_webssh.Vault.Listing.Laws.{Reorders}
use go_webssh.Vault.Listing.Shown.{Kept, Added, shown-All, legacy_count-backfill}

All-Mem :
    {A : Type 0} (q : A → Bool) (xs : List A) (x : A)
    → All (λ y. q y ≡ true) xs
    → Mem x xs
    → q x ≡ true
All-Mem q [] x h m = absurd (not-mem-nil m)
All-Mem q (y ∷ xs) x (p, h) m =
    Or.elim (hlevel) (eq-or-mem_of_mem-cons m) (λ (e : x ≡ y). ap q e ∙ p)
      (λ (k : Mem x xs). All-Mem q xs x h k)

-- What all elements have, an element merely has.
All-witness : {A : Type 0} (P : A → Type 0) (xs : List A) (x : A) → All P xs → Mem x xs → ∥ P x ∥₁
All-witness P [] x h m = absurd (not-mem-nil m)
All-witness P (y ∷ xs) x (p, h) m =
    Or.elim ∥∥₁_prop (eq-or-mem_of_mem-cons m) (λ (e : x ≡ y). ∣ rw e p ∣₁)
      (λ (k : Mem x xs). All-witness P xs x h k)

module _ (owner : Text) where
  unfoldable is_owned : Summary → Bool
  is_owned s = text_eq s.owner owner

  abbrev AllOwned : Dict Summary → Type 0
  AllOwned m = All (λ s. is_owned s ≡ true) (map value_of m)

  insert-AllOwned :
      (id : Text) (s : Summary) (m : Dict Summary)
      → is_owned s ≡ true
      → AllOwned m
      → AllOwned (insert id s m)
  unfolding insert
  insert-AllOwned id s [] p h = (p, tt)
  insert-AllOwned id s (entry ∷ m) p (q, h) = ground (arith, insert-AllOwned id s m p h)

  owned-AllOwned : (lib : Library) (key : Bytes) (m : Dict Bytes) → AllOwned (owned lib key owner m)
  unfolding owned is_owned
  owned-AllOwned lib key [] = tt
  owned-AllOwned lib key ((id, raw) ∷ m) = elim (Option-cases (lib.unmarshal_summary raw)) [
    | inl bad ↦ ground (arith, bad, owned-AllOwned lib key m)
    | inr (s, reads) ↦
        ground
          (arith, reads, owned-AllOwned lib key m, insert-AllOwned id s (owned lib key owner m))
  ]

  backfill-owned :
      (lib : Library) (key : Bytes) (m records : Dict Bytes)
      → All (λ s. is_owned s ≡ true) ((backfill lib key owner m records).0)
  unfolding backfill is_owned summary_of
  backfill-owned lib key m [] = tt
  backfill-owned lib key m ((id, sealed) ∷ records) =
      elim (Option-cases (readable lib key id sealed)) [
        | inl closed ↦ ground (arith, closed, backfill-owned lib key m records)
        | inr (c, opens) ↦
            ground (arith, opens, text_eq_refl owner, backfill-owned lib key m records)
      ]

  add_all-AllOwned :
      (lib : Library) (key : Bytes) (added : List Summary) (m : Dict Summary)
      → All (λ s. is_owned s ≡ true) added
      → AllOwned m
      → AllOwned (add_all lib key added m)
  unfolding add_all
  add_all-AllOwned lib key [] m h k = k
  add_all-AllOwned lib key (s ∷ added) m (p, h) k =
      add_all-AllOwned lib key added (insert s.id s m) h (insert-AllOwned s.id s m p k)

-- Every summary that is listed is the owner's, and it either stands in the database or is that of a credential which
-- can be read and under whose id no summary that can be read stands; the count is that of the records of the old form,
-- and the records of the credentials are left alone.
pub list_summaries_sound :
    (lib : Library) (key : Bytes) (by_name : List Summary → List Summary) (owner : Text)
    (db after : Database) (listed : List Summary) (legacy : ℕ)
    → Reorders by_name
    → list_summaries lib key by_name owner db ≡ (ok (listed, legacy), after)
    → ((s : Summary)
        → Mem s listed
        → (s.owner ≡ owner) × ∥ Kept lib key owner db s ⊎ Added lib key owner db s ∥₁)
      × (legacy ≡ legacy_count db.credentials)
      × (after.credentials ≡ db.credentials)
unfolding list_summaries is_owned
list_summaries_sound lib key by_name owner db after listed legacy sorts h =
    elim (Bool-cases (is_empty owner)) [
      | inl nobody ↦ absurd (ground (arith, h, nobody))
      | inr someone ↦
          let added = (backfill lib key owner db.summaries db.credentials).0 in
          let shown = add_all lib key added (owned lib key owner db.summaries) in
          let all_owned : AllOwned owner shown =
            add_all-AllOwned owner lib key added (owned lib key owner db.summaries)
              (backfill-owned owner lib key db.summaries db.credentials)
              (owned-AllOwned owner lib key db.summaries) in
          elim (Result-cases (store_all lib key added db.summaries)) [
            | inr (e, fails) ↦ absurd (ground (arith, h, someone, fails))
            | inl (bucket, stored) ↦
                let same : by_name (map value_of shown) ≡ listed =
                  ground (arith, h, someone, stored) in
                let moved : (s : Summary) → Mem s listed → Mem s (map value_of shown) =
                  λ s m. (Perm.mem_iff (sorts (map value_of shown))).1 (rw same m) in
                let counted : legacy ≡ (backfill lib key owner db.summaries db.credentials).1 =
                  ground (arith, h, someone, stored) in
                (
                  λ s m. (
                    (text_eq_iff s.owner owner).0
                        (All-Mem (is_owned owner) (map value_of shown) s all_owned (moved s m)),
                    All-witness _ (map value_of shown) s (shown-All lib key owner db) (moved s m),
                  ),
                  counted ∙ legacy_count-backfill lib key owner db.summaries db.credentials,
                  ground (arith, h, someone, stored),
                )
          ]
    ]
