-- ===== src/Themes/Order.antt =====
-- The order of themes loses none and makes none up.
use mathlib.Core.Logic.Or
use mathlib.Core.List.{Mem, mem-cons_self, mem-cons_of_mem, not-mem-nil, eq-or-mem_of_mem-cons}
use mathlib.Core.List.Perm
use go_webssh.Base.{
  ◌≡◌, refl, ◌∙◌, ap, sym, inl, inr, Bool, true, false, not, ◌&&◌, ◌||◌, List, [], ◌∷◌, ◌++◌, arith,
  is_some, any, Bool-cases,
}
use go_webssh.Text.{Text, text_eq}
use go_webssh.Text.Laws.{text_eq_iff}
use go_webssh.Dict.{Dict, lookup}
use go_webssh.Vault.Listing.Laws.{Reorders}
use go_webssh.Themes.{Theme, is_among, present, extra, ordered_names, preferred_order}

module _ (name : Text) where
  is_among-Mem : (xs : List Text) → is_among name xs ≡ true → Mem name xs
  unfolding is_among any
  is_among-Mem [] h = absurd (ground arith)
  is_among-Mem (x ∷ xs) h = elim (Bool-cases (text_eq x name)) [
    | inl same ↦ rw ((text_eq_iff x name).0 same) mem-cons_self
    | inr other ↦ mem-cons_of_mem x (is_among-Mem xs (ground (arith, h, other)))
  ]

  Mem-is_among : (xs : List Text) → Mem name xs → is_among name xs ≡ true
  unfolding is_among any
  Mem-is_among [] h = absurd (not-mem-nil h)
  Mem-is_among (x ∷ xs) h =
      Or.elim (hlevel) (eq-or-mem_of_mem-cons h)
        (λ (e : name ≡ x). ground (arith, text_eq_iff x name, sym e))
        (λ (m : Mem name xs). ground (arith, Mem-is_among xs m))

  is_among-sort :
      (sort : List Text → List Text) (xs : List Text)
      → Reorders sort
      → is_among name (sort xs) ≡ is_among name xs
  is_among-sort sort xs moves =
      same_bool (is_among name (sort xs)) (is_among name xs)
        (λ h. Mem-is_among xs ((Perm.mem_iff (moves xs)).1 (is_among-Mem (sort xs) h)))
        (λ h. Mem-is_among (sort xs) ((Perm.mem_iff (moves xs)).0 (is_among-Mem xs h)))
    where
      same_bool : (a b : Bool) → (a ≡ true → b ≡ true) → (b ≡ true → a ≡ true) → a ≡ b
      same_bool true b f g = sym (f refl)
      same_bool false true f g = g refl
      same_bool false false f g = refl

  is_among-append :
      (xs ys : List Text) → is_among name (xs ++ ys) ≡ (is_among name xs || is_among name ys)
  unfolding is_among any
  is_among-append [] ys = refl
  is_among-append (x ∷ xs) ys = ground (arith, is_among-append xs ys)

  is_among-present :
      (themes : Dict Theme) (xs : List Text)
      → is_among name (present themes xs) ≡ (is_among name xs && is_some (lookup name themes))
  unfolding is_among present any
  is_among-present themes [] = refl
  is_among-present themes (x ∷ xs) = elim (Bool-cases (text_eq x name)) [
    | inl here ↦
        let same = ap (λ k. is_some (lookup k themes)) ((text_eq_iff x name).0 here) in
        ground (arith, here, same, is_among-present themes xs)
    | inr other ↦ ground (arith, other, is_among-present themes xs)
  ]

  is_among-extra :
      (seen : List Text) (themes : Dict Theme)
      → is_among name (extra seen themes)
        ≡ (is_some (lookup name themes) && not (is_among name seen))
  unfolding is_among extra any lookup
  is_among-extra seen [] = refl
  is_among-extra seen ((key, theme) ∷ themes) = elim (Bool-cases (text_eq key name)) [
    | inl here ↦
        let same = ap (λ k. is_among k seen) ((text_eq_iff key name).0 here) in
        ground (arith, here, same, is_among-extra seen themes)
    | inr other ↦ ground (arith, other, is_among-extra seen themes)
  ]

  -- A name is shown exactly if there is a theme of this name, whatever the order of the map.
  pub is_among-ordered_names :
      (sort : List Text → List Text) (themes : Dict Theme)
      → Reorders sort
      → is_among name (ordered_names sort themes) ≡ is_some (lookup name themes)
  unfolding ordered_names
  is_among-ordered_names sort themes moves =
      let shown = present themes preferred_order in
      is_among-append shown (sort (extra shown themes))
      ∙ ap (λ b. is_among name shown || b)
          (is_among-sort sort (extra shown themes) moves ∙ is_among-extra shown themes)
      ∙ ap (λ b. b || (is_some (lookup name themes) && not b))
          (is_among-present themes preferred_order)
      ∙ covers (is_among name preferred_order) (is_some (lookup name themes))
    where
      covers : (p l : Bool) → ((p && l) || (l && not (p && l))) ≡ l
      covers true true = refl
      covers true false = refl
      covers false true = refl
      covers false false = refl
