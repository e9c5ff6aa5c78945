-- ===== src/Cli/Saved/Laws.antt =====
-- `matchSaved` finds the first credential that is meant exactly, or else the only one that begins so.
use go_webssh.Base.{
  append_nil, ◌≡◌, ◌≢◌, refl, ◌∙◌, ap, sym, inl, inr, ◌⊎◌, ◌↔◌, true, Option, none, some, List, [],
  ◌∷◌, ◌++◌, Result, ok, err, is_empty, Bool-cases, arith,
}
use go_webssh.Text.{Text, trim_space, has_prefix}
use go_webssh.Text.Laws.{text_eq_iff, has_prefix-append, has_prefix-split}
use go_webssh.Text.{drop_like}
use go_webssh.Cli.Saved.Matches.{
  find, select, First, Nowhere, Only, Twice, Decides, find-First, find-Nowhere, select-Nowhere,
  select-Only, select-Twice,
}
use go_webssh.Cli.Saved.{
  Item, Casing, SavedError, name_required, ambiguous, not_found, is_exact, is_prefix, conclude,
  scan, match_saved,
}

-- The answer by an exact match, or by all others.
abbrev chosen : Option Item → List Item → Result SavedError Text
chosen (some item) matches = ok item.id
chosen none matches = conclude matches

append_cons : {A : Type 0} (xs : List A) (y : A) (ys : List A) → (xs ++ y ∷ []) ++ ys ≡ xs ++ y ∷ ys
append_cons [] y ys = refl
append_cons (x ∷ xs) y ys = ap (λ r. x ∷ r) (append_cons xs y ys)

scan-chosen :
    (casing : Casing) (given : Text) (matches items : List Item)
    → scan casing given matches items
      ≡ chosen
          (find (is_exact casing given) items)
          (matches ++ select (is_prefix casing given) items)
unfolding scan
scan-chosen casing given matches [] = ap conclude (sym (append_nil matches))
scan-chosen casing given matches (item ∷ items) = elim (Bool-cases (is_exact casing given item)) [
  | inl exact ↦ rw exact refl
  | inr other ↦ elim (Bool-cases (is_prefix casing given item)) [
    | inl begins ↦
        rw (other, begins)
          (scan-chosen casing given (matches ++ item ∷ []) items
            ∙ ap (chosen (find (is_exact casing given) items))
                (append_cons matches item (select (is_prefix casing given) items)))
    | inr differs ↦ rw (other, differs) (scan-chosen casing given matches items)
  ]
]

-- What is given is the id of the credential, or its name but for case.
abbrev pub Means : Casing → Text → Item → Type 0
Means casing given item = (item.id ≡ given) ⊎ (casing.equal_fold item.name given ≡ true)

abbrev pub BeginsWith : Text → Text → Type 0
BeginsWith s p = (rest : Text) × (s ≡ p ++ rest)

-- The id begins with what is given, or the name in lower case with what is given in lower case.
abbrev pub Begins : Casing → Text → Item → Type 0
Begins casing given item =
    BeginsWith item.id given ⊎ BeginsWith (casing.to_lower item.name) (casing.to_lower given)

has_prefix_iff : (s p : Text) → (has_prefix s p ≡ true) ↔ BeginsWith s p
has_prefix_iff s p = (
  λ h. (drop_like s p, has_prefix-split s p h),
  λ (rest, same). rw same (has_prefix-append p rest),
)

is_exact-Means :
    (casing : Casing) (given : Text) → Decides (is_exact casing given) (Means casing given)
unfolding is_exact
is_exact-Means casing given item = (
  λ h. ground (arith, h, text_eq_iff item.id given),
  λ h. ground (arith, h, text_eq_iff item.id given),
)

is_prefix-Begins :
    (casing : Casing) (given : Text) → Decides (is_prefix casing given) (Begins casing given)
unfolding is_prefix
is_prefix-Begins casing given item =
    let id = has_prefix_iff item.id given in
    let name = has_prefix_iff (casing.to_lower item.name) (casing.to_lower given) in
    (λ h. ground (arith, h, id, name), λ h. ground (arith, h, id, name))

-- What a result says of the credentials.
abbrev pub Answers : Casing → Text → List Item → Result SavedError Text → Type 0
Answers casing given items (ok id) =
    (item : Item) × (item.id ≡ id)
    × (First (Means casing given) items item
        ⊎ (Nowhere (Means casing given) items × Only (Begins casing given) items item))
Answers casing given items (err ambiguous) =
    Nowhere (Means casing given) items × Twice (Begins casing given) items
Answers casing given items (err not_found) =
    Nowhere (Means casing given) items × Nowhere (Begins casing given) items
Answers casing given items (err _) = ⊥

no_text : (s : Text) → is_empty s ≡ true → s ≡ []
no_text [] h = refl
no_text (c ∷ s) h = absurd (ground (arith, h))

conclude-Answers :
    (casing : Casing) (given : Text) (items matches : List Item)
    → Nowhere (Means casing given) items
    → select (is_prefix casing given) items ≡ matches
    → Answers casing given items (conclude matches)
unfolding conclude
conclude-Answers casing given items [] missing h =
    (missing, select-Nowhere _ _ items (is_prefix-Begins casing given) h)
conclude-Answers casing given items (item ∷ []) missing h =
    (item, refl, inr (missing, select-Only _ _ items item (is_prefix-Begins casing given) h))
conclude-Answers casing given items (item ∷ other ∷ matches) missing h =
    (missing, select-Twice _ _ items matches item other (is_prefix-Begins casing given) h)

chosen-Answers :
    (casing : Casing) (given : Text) (items : List Item) (found : Option Item)
    → find (is_exact casing given) items ≡ found
    → Answers casing given items (chosen found (select (is_prefix casing given) items))
chosen-Answers casing given items (some item) h =
    (item, refl, inl (find-First _ _ items item (is_exact-Means casing given) h))
chosen-Answers casing given items none h =
    conclude-Answers casing given items _ (find-Nowhere _ _ items (is_exact-Means casing given) h)
      refl

-- What is given, without its outer spaces, must not be empty. Then the answer is the id of the first credential whose
-- id it is, or whose name but for case; where there is none, that of the only one whose id begins with it, or whose
-- name but for case; where several begin so, the answer is that it is ambiguous, and else that none is found.
pub match_saved-Answers :
    (casing : Casing) (items : List Item) (given : Text)
    → ((trim_space given ≡ []) × (match_saved casing items given ≡ err name_required))
      ⊎ ((trim_space given ≢ [])
          × Answers casing (trim_space given) items (match_saved casing items given))
unfolding match_saved
match_saved-Answers casing items given = elim (Bool-cases (is_empty (trim_space given))) [
  | inl blank ↦ inl (no_text (trim_space given) blank, ground (arith, blank))
  | inr wanted ↦ inr (
    λ e. ground (arith, ap is_empty e, wanted),
    rw (match_saved, wanted, scan-chosen casing (trim_space given) [] items)
        (chosen-Answers casing (trim_space given) items _ refl),
  )
]
