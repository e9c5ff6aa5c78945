-- ===== src/Auth/Store/Laws.antt =====
-- The session store against its specification: who a token stands for at a given time.
use go_webssh.Base.{
  ℕ, ◌≤◌, ◌≡◌, refl, inl, inr, Bool, true, false, Option, none, some, arith, if◌then◌else◌,
  Option-cases, ap, ◌∙◌,
}
use go_webssh.Int.{ℤ}
use go_webssh.Text.{Text, text_eq}
use go_webssh.Dict.{
  lookup, IsMap, lookup-insert, lookup-erase, lookup-erase_if, insert-IsMap, erase-IsMap,
  erase_if-IsMap, keep_if,
}
use go_webssh.Text.Laws.{text_eq_iff}
use go_webssh.Auth.Store.{
  SessionInfo, Store, is_expired, add_duration, lifetime, cleanup, create, get, delete,
}

-- The specification: the session that a token stands for at a time, if there is one.
abbrev pub view : Store → ℕ → Text → Option SessionInfo
view s now token = keep_if (is_expired now) (lookup token s.sessions)

abbrev pub IsValid : Store → Type 0
IsValid s = IsMap s.sessions

-- What has expired stays expired.
keep-keep :
    (now later : ℕ) (o : Option SessionInfo)
    → now ≤ later
    → keep_if (is_expired later) (keep_if (is_expired now) o) ≡ keep_if (is_expired later) o
keep-keep now later none h = refl
keep-keep now later (some info) h = ground arith

-- `Get` answers by the specification, and changes it for no token at no later time.
pub get-view :
    (now later : ℕ) (token j : Text) (s : Store)
    → now ≤ later
    → ((get now token s).0 ≡ view s now token) × (view (get now token s).1 later j ≡ view s later j)
unfolding get
get-view now later token j s h = elim (Option-cases (lookup token s.sessions)) [
  | inl missing ↦ rw missing (refl, refl)
  | inr (info, found) ↦ ground (
    arith,
    found,
    lookup-erase token j s.sessions,
    text_eq_iff token j,
    ap (λ k. lookup k s.sessions),
  )
]

-- A clean-up round changes the answer for no token at no later time.
pub cleanup-view :
    (now later : ℕ) (j : Text) (s : Store)
    → IsValid s
    → now ≤ later
    → view (cleanup now s) later j ≡ view s later j
unfolding cleanup
cleanup-view now later j s v h =
    ap (keep_if (is_expired later)) (lookup-erase_if (is_expired now) j s.sessions v)
    ∙ keep-keep now later (lookup j s.sessions) h

-- A deleted token stands for nobody, and the others are not touched.
pub delete-view :
    (now : ℕ) (token j : Text) (s : Store)
    → view (delete token s) now j ≡ (if text_eq token j then none else view s now j)
unfolding delete
delete-view now token j s = ground (arith, lookup-erase token j s.sessions)

keep_if-if :
    (drop : SessionInfo → Bool) (b : Bool) (x y : Option SessionInfo)
    → keep_if drop (if b then x else y) ≡ (if b then keep_if drop x else keep_if drop y)
keep_if-if drop true x y = refl
keep_if-if drop false x y = refl

-- A created session is found by its token until it expires, and the others are not touched.
pub create-view :
    (now later : ℕ) (token j username : Text) (ttl : Option ℤ) (s : Store)
    → view (create now (some token) username ttl s).1 later j ≡ (
        if text_eq token j
        then keep_if (is_expired later) (
            some
              (record { username = username; expires_at = add_duration now (lifetime s.ttl ttl) }))
        else view s later j)
unfolding create
create-view now later token j username ttl s =
    ap (keep_if (is_expired later)) (lookup-insert token j _ s.sessions)
    ∙ keep_if-if (is_expired later) (text_eq token j) _ _

-- Each operation keeps the keys distinct and the lifetime of sessions.
module _ (now : ℕ) (token username : Text) (s : Store) (v : IsValid s) where
  pub create-IsValid :
      (ttl : Option ℤ)
      → let s' = (create now (some token) username ttl s).1 in IsValid s' × (s'.ttl ≡ s.ttl)
  unfolding create
  create-IsValid ttl = (insert-IsMap token _ s.sessions v, refl)

module _ (now : ℕ) (token : Text) (s : Store) (v : IsValid s) where
  pub get-IsValid : let s' = (get now token s).1 in IsValid s' × (s'.ttl ≡ s.ttl)
  unfolding get
  get-IsValid = ground (arith, erase-IsMap token s.sessions v)

  pub delete-IsValid : let s' = delete token s in IsValid s' × (s'.ttl ≡ s.ttl)
  unfolding delete
  delete-IsValid = (erase-IsMap token s.sessions v, refl)

  pub cleanup-IsValid : let s' = cleanup now s in IsValid s' × (s'.ttl ≡ s.ttl)
  unfolding cleanup
  cleanup-IsValid = (erase_if-IsMap (is_expired now) s.sessions v, refl)
