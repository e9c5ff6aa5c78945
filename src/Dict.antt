-- ===== src/Dict.antt =====
-- A Go map with text keys, as an association list.
use go_webssh.Base.{
  ◌≡◌, refl, Bool, Option, none, some, List, [], ◌∷◌, arith, if◌then◌else◌, inl, inr, Bool-cases,
}
use go_webssh.Text.{Text, text_eq}
use go_webssh.Text.Laws.{text_eq_iff}

abbrev pub Dict {ℓ} : Type ℓ → Type ℓ
Dict V = List (Text × V)

module _ {ℓ} {V : Type ℓ} where
  -- `v, ok := m[k]`
  unfoldable pub lookup : Text → Dict V → Option V
  unfolding text_eq
  lookup key [] = none
  lookup key (entry ∷ m) =
      let further = lookup key m in if text_eq entry.0 key then some entry.1 else further

  -- `m[k] = v`
  unfoldable pub insert : Text → V → Dict V → Dict V
  unfolding text_eq
  insert key new [] = (key, new) ∷ []
  insert key new (entry ∷ m) =
      let kept = entry ∷ insert key new m in if text_eq entry.0 key then (key, new) ∷ m else kept

  -- `delete(m, k)`
  unfoldable pub erase : Text → Dict V → Dict V
  unfolding text_eq
  erase k [] = []
  erase k ((j, w) ∷ m) = let rest = erase k m in if text_eq j k then rest else (j, w) ∷ rest

  -- `for k, v := range m { if drop(v) { delete(m, k) } }`
  unfoldable pub erase_if : (V → Bool) → Dict V → Dict V
  erase_if drop [] = []
  erase_if drop ((j, w) ∷ m) = let rest = erase_if drop m in if drop w then rest else (j, w) ∷ rest

  -- No key is listed twice.
  abbrev pub IsMap : Dict V → Type ℓ
  IsMap [] = Unit
  IsMap ((k, v) ∷ m) = (lookup k m ≡ none) × IsMap m

  pub lookup-insert :
      (k j : Text) (v : V) (m : Dict V)
      → lookup j (insert k v m) ≡ (if text_eq k j then some v else lookup j m)
  unfolding lookup insert
  lookup-insert k j v [] = refl
  lookup-insert k j v (entry ∷ m) =
      ground (
        arith,
        lookup-insert k j v m,
        text_eq_iff entry.0 j,
        text_eq_iff entry.0 k,
        text_eq_iff k j,
      )

  pub lookup-erase :
      (k j : Text) (m : Dict V) → lookup j (erase k m) ≡ (if text_eq k j then none else lookup j m)
  unfolding lookup erase
  lookup-erase k j [] = ground arith
  lookup-erase k j ((i, w) ∷ m) =
      ground (arith, text_eq_iff k j, text_eq_iff i k, text_eq_iff i j, lookup-erase k j m)

  pub insert-IsMap : (k : Text) (v : V) (m : Dict V) → IsMap m → IsMap (insert k v m)
  unfolding lookup insert
  insert-IsMap k v [] h = (refl, tt)
  insert-IsMap k v ((i, w) ∷ m) (h, hs) =
      ground (arith, text_eq_iff i k, text_eq_iff k i, lookup-insert k i v m, insert-IsMap k v m hs)

  pub erase-IsMap : (k : Text) (m : Dict V) → IsMap m → IsMap (erase k m)
  unfolding lookup erase
  erase-IsMap k [] h = tt
  erase-IsMap k ((i, w) ∷ m) (h, hs) = ground (arith, lookup-erase k i m, erase-IsMap k m hs)

  lookup-erase_if-none :
      (drop : V → Bool) (j : Text) (m : Dict V)
      → lookup j m ≡ none
      → lookup j (erase_if drop m) ≡ none
  unfolding lookup erase_if
  lookup-erase_if-none drop j [] h = refl
  lookup-erase_if-none drop j ((i, w) ∷ m) h = ground (arith, lookup-erase_if-none drop j m)

  pub erase_if-IsMap : (drop : V → Bool) (m : Dict V) → IsMap m → IsMap (erase_if drop m)
  unfolding lookup erase_if
  erase_if-IsMap drop [] h = tt
  erase_if-IsMap drop ((i, w) ∷ m) (h, hs) =
      ground (arith, lookup-erase_if-none drop i m h, erase_if-IsMap drop m hs)

  -- What is found after the sweep: the value that was there, unless the sweep drops it.
  abbrev pub keep_if : (V → Bool) → Option V → Option V
  keep_if drop none = none
  keep_if drop (some v) = if drop v then none else some v

  pub lookup-erase_if :
      (drop : V → Bool) (j : Text) (m : Dict V)
      → IsMap m
      → lookup j (erase_if drop m) ≡ keep_if drop (lookup j m)
  unfolding lookup erase_if
  lookup-erase_if drop j [] h = refl
  lookup-erase_if drop j ((i, w) ∷ m) (h, hs) = elim (Bool-cases (text_eq i j)) [
    | inl same ↦
        let e = (text_eq_iff i j).0 same in ground (arith, e, lookup-erase_if-none drop i m h)
    | inr other ↦ ground (arith, lookup-erase_if drop j m hs)
  ]
