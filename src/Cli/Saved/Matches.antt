-- ===== src/Cli/Saved/Matches.antt =====
-- The elements of a list that pass a test, and where a list has elements with a property.
use go_webssh.Base.{
  if◌then◌else◌, ◌≡◌, inl, inr, ◌⊎◌, ◌↔◌, Bool, true, false, Option, none, some, List, [], ◌∷◌,
  Bool-cases, All, Some, arith, if◌then◌else◌,
}

-- The first element that passes.
abbrev pub find : {A : Type 0} → (A → Bool) → List A → Option A
find p [] = none
find p (x ∷ xs) = let rest = find p xs in if p x then some x else rest

-- The elements that pass.
abbrev pub select : {A : Type 0} → (A → Bool) → List A → List A
select p [] = []
select p (x ∷ xs) = let rest = select p xs in if p x then x ∷ rest else rest

-- The first element with a property.
abbrev pub First : {A : Type 0} → (A → Type 0) → List A → A → Type 0
First P [] item = ⊥
First P (x ∷ xs) item = (P x × (x ≡ item)) ⊎ (¬ P x × First P xs item)

-- No element has the property.
abbrev pub Nowhere : {A : Type 0} → (A → Type 0) → List A → Type 0
Nowhere P xs = All (λ x. ¬ P x) xs

-- The only element with a property.
abbrev pub Only : {A : Type 0} → (A → Type 0) → List A → A → Type 0
Only P [] item = ⊥
Only P (x ∷ xs) item = (P x × (x ≡ item) × Nowhere P xs) ⊎ (¬ P x × Only P xs item)

-- At least two elements have the property.
abbrev pub Twice : {A : Type 0} → (A → Type 0) → List A → Type 0
Twice P [] = ⊥
Twice P (x ∷ xs) = (P x × Some P xs) ⊎ Twice P xs

-- A test that decides a property.
abbrev pub Decides : {A : Type 0} → (A → Bool) → (A → Type 0) → Type 0
Decides {A} p P = (x : A) → (p x ≡ true) ↔ P x

refuted : {A : Type 0} (p : A → Bool) (P : A → Type 0) (x : A) → Decides p P → p x ≡ false → ¬ P x
refuted p P x decides h holds = absurd (ground (arith, h, (decides x).1 holds))

pub find-First :
    {A : Type 0} (p : A → Bool) (P : A → Type 0) (xs : List A) (item : A)
    → Decides p P
    → find p xs ≡ some item
    → First P xs item
find-First p P [] item decides h = absurd (ground (arith, h))
find-First p P (x ∷ xs) item decides h = elim (Bool-cases (p x)) [
  | inl passes ↦ inl ((decides x).0 passes, ground (arith, h, passes))
  | inr fails ↦
      inr (refuted p P x decides fails, find-First p P xs item decides (ground (arith, h, fails)))
]

pub find-Nowhere :
    {A : Type 0} (p : A → Bool) (P : A → Type 0) (xs : List A)
    → Decides p P
    → find p xs ≡ none
    → Nowhere P xs
find-Nowhere p P [] decides h = tt
find-Nowhere p P (x ∷ xs) decides h = elim (Bool-cases (p x)) [
  | inl passes ↦ absurd (ground (arith, h, passes))
  | inr fails ↦
      (refuted p P x decides fails, find-Nowhere p P xs decides (ground (arith, h, fails)))
]

pub select-Nowhere :
    {A : Type 0} (p : A → Bool) (P : A → Type 0) (xs : List A)
    → Decides p P
    → select p xs ≡ []
    → Nowhere P xs
select-Nowhere p P [] decides h = tt
select-Nowhere p P (x ∷ xs) decides h = elim (Bool-cases (p x)) [
  | inl passes ↦ absurd (ground (arith, h, passes))
  | inr fails ↦
      (refuted p P x decides fails, select-Nowhere p P xs decides (ground (arith, h, fails)))
]

select-Some :
    {A : Type 0} (p : A → Bool) (P : A → Type 0) (xs ys : List A) (y : A)
    → Decides p P
    → select p xs ≡ y ∷ ys
    → Some P xs
select-Some p P [] ys y decides h = absurd (ground (arith, h))
select-Some p P (x ∷ xs) ys y decides h = elim (Bool-cases (p x)) [
  | inl passes ↦ inl ((decides x).0 passes)
  | inr fails ↦ inr (select-Some p P xs ys y decides (ground (arith, h, fails)))
]

pub select-Only :
    {A : Type 0} (p : A → Bool) (P : A → Type 0) (xs : List A) (y : A)
    → Decides p P
    → select p xs ≡ y ∷ []
    → Only P xs y
select-Only p P [] y decides h = absurd (ground (arith, h))
select-Only p P (x ∷ xs) y decides h = elim (Bool-cases (p x)) [
  | inl passes ↦ inl (
    (decides x).0 passes,
    ground (arith, h, passes),
    select-Nowhere p P xs decides (ground (arith, h, passes)),
  )
  | inr fails ↦
      inr (refuted p P x decides fails, select-Only p P xs y decides (ground (arith, h, fails)))
]

pub select-Twice :
    {A : Type 0} (p : A → Bool) (P : A → Type 0) (xs ys : List A) (y z : A)
    → Decides p P
    → select p xs ≡ y ∷ z ∷ ys
    → Twice P xs
select-Twice p P [] ys y z decides h = absurd (ground (arith, h))
select-Twice p P (x ∷ xs) ys y z decides h = elim (Bool-cases (p x)) [
  | inl passes ↦
      inl ((decides x).0 passes, select-Some p P xs ys z decides (ground (arith, h, passes)))
  | inr fails ↦ inr (select-Twice p P xs ys y z decides (ground (arith, h, fails)))
]
