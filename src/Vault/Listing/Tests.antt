-- ===== src/Vault/Listing/Tests.antt =====
-- A list of one credential, and the theorems there.
use mathlib.Core.List.{Mem}
use mathlib.Core.List.Perm
use go_webssh.Base.{◌≡◌, ◌⊎◌, refl, ◌↔◌, ◌++◌, List, [], ◌∷◌, ok}
use go_webssh.Text.{Text, codes, text_eq}
use go_webssh.Dict.{insert, lookup}
use go_webssh.Vault.Primitives.{Summary, Database}
use go_webssh.Vault.{get, is_v2, legacy_count, summary_of, decrypt, decrypt_record}
use go_webssh.Vault.Listing.{
  list_available, list_summaries, known, readable, backfill, owned, add_all, store_all,
}
use go_webssh.Vault.Listing.Laws.{Reorders, list_available_iff}
use go_webssh.Vault.Listing.Shown.{Kept, Added}
use go_webssh.Vault.Listing.Owned.{list_summaries_sound}
use go_webssh.Vault.Sample.{sample_library, encoded, saved_credential, put_text, get_text}

-- A sort that has nothing to do.
abbrev as_is : {A : Type 0} → List A → List A
as_is xs = xs

as_is-Reorders : {A : Type 0} → Reorders (λ (xs : List A). as_is xs)
as_is-Reorders xs = Perm.refl xs

abbrev saved : Database
saved = record {
  credentials = (codes "i", codes "GWS2" ++ 0 ∷ 0 ∷ encoded saved_credential) ∷ [];
  summaries = [];
}

abbrev listed_after : Database
listed_after = record saved { summaries = (codes "i", codes "i") ∷ [] }

list_available_iff_example :
    Mem saved_credential ((list_available sample_library [] as_is saved).0)
    ↔ (∥ ((id : Text) × (get sample_library [] id saved ≡ ok saved_credential)) ∥₁)
unfolding lookup
list_available_iff_example =
    list_available_iff sample_library [] as_is saved saved_credential as_is-Reorders (refl, tt)

list_runs :
    list_summaries sample_library [] as_is (codes "o") saved
    ≡ (ok (summary_of saved_credential (codes "o") ∷ [], 0), listed_after)
unfolding list_summaries known readable backfill owned add_all store_all insert lookup text_eq is_v2
    legacy_count summary_of decrypt decrypt_record put_text get_text
list_runs = refl

list_summaries_sound_example :
    ((s : Summary)
      → Mem s (summary_of saved_credential (codes "o") ∷ [])
      → (s.owner ≡ codes "o")
        × ∥ Kept sample_library [] (codes "o") saved s
            ⊎ Added sample_library [] (codes "o") saved s ∥₁)
    × (0 ≡ legacy_count saved.credentials)
    × (listed_after.credentials ≡ saved.credentials)
list_summaries_sound_example =
    list_summaries_sound sample_library [] as_is (codes "o") saved listed_after
      (summary_of saved_credential (codes "o") ∷ []) 0 as_is-Reorders list_runs
