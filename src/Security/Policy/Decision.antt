-- ===== src/Security/Policy/Decision.antt =====
-- What a policy decides about an address, in terms of the configuration that it is made of.
use go_webssh.Base.{
  ◌≡◌, refl, ◌↔◌, ◌⊎◌, inl, inr, Bool, true, false, some, List, [], ◌∷◌, ok, arith, Some, map,
  Bool-cases, any, ℕ,
}
use go_webssh.Text.{Text}
use go_webssh.Net.{Addr, v6, Prefix, prefix4, prefix6, prefix_contains, is_private, Netip}
use go_webssh.Security.Policy.{
  NetworkPolicy, check_addr, is_blocked_class, new_network_policy, defaults, private_ranges,
}
use go_webssh.Security.Policy.Laws.{Covers, Misses, check_addr_iff}
use go_webssh.Security.Policy.Entries.{
  Names, ReadsDefaults, allow_prefixes_iff, deny_prefixes_iff, parts,
}

false_of_not : (b : Bool) → ¬ (b ≡ true) → b ≡ false
false_of_not true n = absurd (n refl)
false_of_not false n = refl

Misses-iff : (addr : Addr) (ps : List Prefix) → Misses addr ps ↔ (¬ Covers addr ps)
Misses-iff addr [] = (λ m h. h, λ n. tt)
Misses-iff addr (q ∷ ps) =
    let (to, from) = Misses-iff addr ps in
    (
      λ m. elim [ inl c ↦ ground arith | inr k ↦ to m.1 k ],
      λ n. (false_of_not (prefix_contains q addr) (λ c. n (inl c)), from (λ k. n (inr k))),
    )

-- The tests that `checkAddr` makes after the allow list, as one negation.
negation_iff :
    {D L Z : Type 0} (own blocked is_priv : Bool)
    → D ↔ (L ⊎ ((own ≡ false) × Z))
    → ((¬ D) × (blocked ≡ false) × ((own ≡ true) ⊎ (is_priv ≡ false)))
      ↔ (¬ (L ⊎ (blocked ≡ true) ⊎ ((own ≡ false) × (Z ⊎ (is_priv ≡ true)))))
negation_iff own blocked is_priv (to, from) = (
  λ h. elim [
    | inl l ↦ h.0 (from (inl l))
    | inr (inl b) ↦ ground arith
    | inr (inr (o, inl z)) ↦ h.0 (from (inr (o, z)))
    | inr (inr (o, inr q)) ↦ ground arith
  ],
  λ n. (
    λ d. elim (to d) [ inl l ↦ n (inl l) | inr (o, z) ↦ n (inr (inr (o, inl z))) ],
    false_of_not blocked (λ b. n (inr (inl b))),
    elim (Bool-cases own) [
      | inl o ↦ inl o
      | inr o ↦ inr (false_of_not is_priv (λ q. n (inr (inr (o, inr q)))))
    ],
  ),
)

module _ (net : Netip) (allow_private : Bool) (deny allow : List Text) (addr : Addr) where
  -- The address lies in a constant prefix, in a configured one, or, where private ranges are not
  -- allowed, in a private range; or it is of a class that is always blocked.
  abbrev pub IsDenied : Type 0
  IsDenied =
      (Covers addr (map (λ d. d.1) defaults) ⊎ Some (Names net addr) deny)
      ⊎ (is_blocked_class addr ≡ true)
      ⊎ ((allow_private ≡ false) × (Covers addr private_ranges ⊎ (is_private addr ≡ true)))

  -- A policy that `NewNetworkPolicy` has made passes an address exactly when an allow entry names
  -- it or it is not denied: by a constant prefix, a deny entry, a blocked class, or as private.
  -- The condition is that the platform reads the four constant prefixes as what they say.
  pub check_addr-new_network_policy :
      (p : NetworkPolicy)
      → ReadsDefaults net
      → new_network_policy net allow_private deny allow ≡ ok p
      → (check_addr p addr ≡ ok tt) ↔ (Some (Names net addr) allow ⊎ (¬ IsDenied))
  check_addr-new_network_policy p reads made =
      let (d, a, hd, ha, same, e2, e3) = parts net addr allow_private deny allow p reads made in
      let (named, covered) = allow_prefixes_iff net addr allow_private deny allow p reads made in
      let (refused, accepted) =
        negation_iff allow_private (is_blocked_class addr) (is_private addr)
          (deny_prefixes_iff net addr allow_private deny allow p reads made) in
      let (missed, missing) = Misses-iff addr p.deny_prefixes in
      let (to, from) = check_addr_iff p addr in
      (
        λ h. elim (to h) [
          | inl c ↦ inl (named c)
          | inr (m, b, o) ↦ inr (refused (missed m, b, rw same at o))
        ],
        elim [
          | inl n ↦ from (inl (covered n))
          | inr n ↦ let (m, b, o) = accepted n in from (inr (missing m, b, rw (← same) at o))
        ],
      )

no_zone :
    (ps : List Prefix) (n : ℕ) (zone : Text)
    → any (λ pref. prefix_contains pref (v6 n (some zone))) ps ≡ false
unfolding any prefix_contains
no_zone [] n zone = refl
no_zone (prefix4 a b ∷ ps) n zone = no_zone ps n zone
no_zone (prefix6 a b ∷ ps) n zone = no_zone ps n zone

-- The deny entries do not reach an IPv6 address with a zone: its fate does not depend on them.
pub zone_ignores_deny :
    (p : NetworkPolicy) (deny : List Prefix) (n : ℕ) (zone : Text)
    → check_addr (record p { deny_prefixes = deny }) (v6 n (some zone))
      ≡ check_addr p (v6 n (some zone))
unfolding check_addr
zone_ignores_deny p deny n zone = rw (no_zone deny n zone, no_zone p.deny_prefixes n zone) refl

-- The unspecified IPv6 address with any zone passes every policy, whatever it denies.
pub unspecified_zone_passes :
    (p : NetworkPolicy) (zone : Text) → check_addr p (v6 0 (some zone)) ≡ ok tt
unfolding check_addr
unspecified_zone_passes p zone =
    rw (no_zone p.allow_prefixes 0 zone, no_zone p.deny_prefixes 0 zone) (ground arith)
