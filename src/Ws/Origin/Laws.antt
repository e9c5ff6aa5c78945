-- ===== src/Ws/Origin/Laws.antt =====
-- Which origins internal/ws/handler.go lets in.
use go_webssh.Base.{
  ◌≡◌, refl, ◌↔◌, ◌⊎◌, inl, inr, true, false, ◌||◌, List, [], ◌∷◌, ◌++◌, Some, Some-map, is_empty,
  any, any_iff, arith,
}
use go_webssh.Text.{Text, codes, text_eq, equal_fold, has_prefix, trim_prefix, before}
use go_webssh.Text.Laws.{
  has_prefix-split, text_eq_iff, text_eq_refl, has_prefix-append, trim_prefix-append,
}
use go_webssh.Ws.Origin.{Request, is_same_origin, check_origin}

trim_prefix-split : (s p : Text) → has_prefix s p ≡ true → s ≡ p ++ trim_prefix s p
unfolding trim_prefix
trim_prefix-split s p h = rw h (has_prefix-split s p h)

-- The origins of the request's own host: under https without regard to the request's port.
abbrev pub IsOwn : Request → Text → Type 0
IsOwn r origin =
    (origin ≡ codes "http://" ++ r.host)
    ⊎ (origin ≡ codes "https://" ++ r.host)
    ⊎ (origin ≡ codes "https://" ++ before b':' r.host)

https_not_http : (s : Text) → has_prefix (codes "http://" ++ s) (codes "https://") ≡ false
unfolding has_prefix
https_not_http s = refl

is_same_origin_sound :
    (r : Request) (origin : Text) → is_same_origin r origin ≡ true → IsOwn r origin
unfolding is_same_origin
is_same_origin_sound r origin h = ground (
  arith,
  trim_prefix-split origin (codes "https://"),
  trim_prefix-split origin (codes "http://"),
  text_eq_iff (trim_prefix origin (codes "https://")) r.host,
  text_eq_iff (trim_prefix origin (codes "https://")) (before b':' r.host),
  text_eq_iff (trim_prefix origin (codes "http://")) r.host,
)

is_same_origin-https :
    (r : Request) (host : Text)
    → (host ≡ r.host) ⊎ (host ≡ before b':' r.host)
    → is_same_origin r (codes "https://" ++ host) ≡ true
unfolding is_same_origin
is_same_origin-https r host h =
    rw (has_prefix-append (codes "https://") host, trim_prefix-append (codes "https://") host)
      (ground (arith, text_eq_iff host r.host, text_eq_iff host (before b':' r.host)))

is_same_origin-http : (r : Request) → is_same_origin r (codes "http://" ++ r.host) ≡ true
unfolding is_same_origin
is_same_origin-http r =
    rw (has_prefix-append (codes "http://") r.host, trim_prefix-append (codes "http://") r.host)
      (text_eq_refl r.host)

is_same_origin_iff :
    (r : Request) (origin : Text) → (is_same_origin r origin ≡ true) ↔ IsOwn r origin
is_same_origin_iff r origin = (
  is_same_origin_sound r origin,
  elim [
    | inl http ↦ rw http (is_same_origin-http r)
    | inr (inl e) ↦ rw e (is_same_origin-https r r.host (inl refl))
    | inr (inr e) ↦ rw e (is_same_origin-https r (before b':' r.host) (inr refl))
  ],
)

-- An entry of the configuration that allows the origin.
abbrev pub Allows : Text → Text → Type 0
Allows origin entry = (entry ≡ codes "*") ⊎ (equal_fold entry origin ≡ true)

Allows-iff :
    (origin entry : Text)
    → ((text_eq entry (codes "*") || equal_fold entry origin) ≡ true) ↔ Allows origin entry
Allows-iff origin entry = (
  λ h. ground (arith, text_eq_iff entry (codes "*")),
  λ h. ground (arith, text_eq_iff entry (codes "*")),
)

any-Allows_iff :
    (origin : Text) (entries : List Text)
    → (any (λ entry. text_eq entry (codes "*") || equal_fold entry origin) entries ≡ true)
      ↔ Some (Allows origin) entries
any-Allows_iff origin entries =
    let (to, from) =
      any_iff (λ entry. text_eq entry (codes "*") || equal_fold entry origin) entries in
    (
      λ h. Some-map _ _ (λ entry. (Allows-iff origin entry).0) entries (to h),
      λ h. from (Some-map _ _ (λ entry. (Allows-iff origin entry).1) entries h),
    )

no_text : (s : Text) → (is_empty s ≡ true) ↔ (s ≡ [])
no_text [] = (λ h. refl, λ h. refl)
no_text (c ∷ s) = (λ h. absurd (ground arith), λ h. absurd (ground arith))

-- A request is let in exactly if it names no origin, an origin of its own host, or one that an entry
-- of the configuration names in some case, or if an entry is the star.
pub check_origin_iff :
    (allowed : List Text) (r : Request)
    → (check_origin allowed r ≡ true)
      ↔ ((r.origin ≡ []) ⊎ IsOwn r r.origin ⊎ Some (Allows r.origin) allowed)
unfolding check_origin
check_origin_iff allowed r =
    let none_given = no_text r.origin in
    let own = is_same_origin_iff r r.origin in
    let listed = any-Allows_iff r.origin allowed in
    (λ h. ground (arith, none_given, own, listed), λ h. ground (arith, none_given, own, listed))
