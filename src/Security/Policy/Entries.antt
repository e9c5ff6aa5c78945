-- ===== src/Security/Policy/Entries.antt =====
-- The prefixes that `NewNetworkPolicy` makes of the configured entries.
use go_webssh.Base.{
  ◌≡◌, refl, ◌≢◌, ◌↔◌, ◌⊎◌, inl, inr, true, false, some, List, [], ◌∷◌, ◌++◌, ok, arith, All, Bool,
  Some, Some-append_iff, Bool-cases, Option-cases, map, is_empty, any, >>=-ok, if◌then◌else◌,
}
use go_webssh.Text.{Text, text_eq, trim_space}
use go_webssh.Text.Laws.{text_eq_sound}
use go_webssh.Net.{Addr, Prefix, prefix_contains, Netip}
use go_webssh.Security.Policy.{
  NetworkPolicy, add_deny, add_allow, new_network_policy, parse_prefix_or_ip, defaults,
  private_ranges,
}
use go_webssh.Security.Policy.Laws.{Covers}

is_empty-ne : (s : Text) → is_empty s ≡ false → s ≢ []
is_empty-ne [] h = absurd (ground arith)
is_empty-ne (c ∷ s) h = λ e. ground arith

is_empty-eq : (s : Text) → is_empty s ≡ true → s ≡ []
is_empty-eq [] h = refl
is_empty-eq (c ∷ s) h = absurd (ground arith)

true-ne-false : ◌≡◌ {A = Bool} true false → ⊥
true-ne-false h = cc

-- How one more element of a list enters a membership statement: not at all, or on the left.
skip_iff : {A B C D : Type 0} → A ↔ (B ⊎ D) → ¬ C → A ↔ (B ⊎ (C ⊎ D))
skip_iff (to, from) n = (
  λ a. elim (to a) [ inl b ↦ inl b | inr d ↦ inr (inr d) ],
  elim [ inl b ↦ from (inl b) | inr (inl c) ↦ absurd (n c) | inr (inr d) ↦ from (inr d) ],
)

absorb_iff : {A B C D : Type 0} → A ↔ (B ⊎ D) → (C → B) → A ↔ (B ⊎ (C ⊎ D))
absorb_iff (to, from) n = (
  λ a. elim (to a) [ inl b ↦ inl b | inr d ↦ inr (inr d) ],
  elim [ inl b ↦ from (inl b) | inr (inl c) ↦ from (inl (n c)) | inr (inr d) ↦ from (inr d) ],
)

move_iff : {A B B' C D : Type 0} → A ↔ (B' ⊎ D) → B' ↔ (B ⊎ C) → A ↔ (B ⊎ (C ⊎ D))
move_iff (to, from) (split, join) = (
  λ a. elim (to a) [
    | inl b' ↦ elim (split b') [ inl b ↦ inl b | inr c ↦ inr (inl c) ]
    | inr d ↦ inr (inr d)
  ],
  elim [
    | inl b ↦ from (inl (join (inl b)))
    | inr (inl c) ↦ from (inl (join (inr c)))
    | inr (inr d) ↦ from (inr d)
  ],
)

drop_iff : {A D : Type 0} → A ↔ (⊥ ⊎ D) → A ↔ D
drop_iff (to, from) = (λ a. elim (to a) [ inl b ↦ absurd b | inr d ↦ d ], λ d. from (inr d))

-- The platform reads the four constant prefixes as what they say.
abbrev pub ReadsDefaults : Netip → Type 0
ReadsDefaults net = All (λ d. net.parse_prefix d.0 ≡ some d.1) defaults

module _ (net : Netip) (addr : Addr) where
  -- The entry is not blank, and the prefix or address that it spells contains the address.
  abbrev pub Names : Text → Type 0
  Names e =
      (trim_space e ≢ [])
      × ((pref : Prefix) × (parse_prefix_or_ip net (trim_space e) ≡ some pref)
          × (prefix_contains pref addr ≡ true))

  Names-of_parse :
      (e : Text) (pref : Prefix)
      → trim_space e ≢ []
      → parse_prefix_or_ip net (trim_space e) ≡ some pref
      → Names e ↔ (prefix_contains pref addr ≡ true)
  Names-of_parse e pref n h =
      (λ m. let (other, reads, holds) = m.1 in ground arith, λ c. (n, (pref, h, c)))

  Covers-concat :
      (acc : List Prefix) (e : Text) (pref : Prefix)
      → trim_space e ≢ []
      → parse_prefix_or_ip net (trim_space e) ≡ some pref
      → Covers addr (acc ++ pref ∷ []) ↔ (Covers addr acc ⊎ Names e)
  Covers-concat acc e pref n reads =
      let (to, from) = Some-append_iff (λ q. prefix_contains q addr ≡ true) acc (pref ∷ []) in
      let (seen, named) = Names-of_parse e pref n reads in
      (
        λ c. elim (to c) [ inl k ↦ inl k | inr (inl k) ↦ inr (named k) | inr (inr k) ↦ absurd k ],
        elim [ inl k ↦ from (inl k) | inr k ↦ from (inr (inl (seen k))) ],
      )

  add_allow_iff :
      (acc : List Prefix) (entries : List Text) (out : List Prefix)
      → add_allow net acc entries ≡ ok out
      → Covers addr out ↔ (Covers addr acc ⊎ Some Names entries)
  unfolding add_allow
  add_allow_iff acc [] out h = ground arith
  add_allow_iff acc (e ∷ es) out h = elim (Bool-cases (is_empty (trim_space e))) [
    | inl blank ↦
        skip_iff (add_allow_iff acc es out (ground arith))
          (λ m. m.0 (is_empty-eq (trim_space e) blank))
    | inr given ↦ elim (Option-cases (parse_prefix_or_ip net (trim_space e))) [
      | inl fails ↦ absurd (ground arith)
      | inr (pref, reads) ↦
          move_iff (add_allow_iff (acc ++ pref ∷ []) es out (ground arith))
            (Covers-concat acc e pref (is_empty-ne (trim_space e) given) reads)
    ]
  ]

  -- What the loop over the deny entries has seen is covered by what it has collected.
  abbrev Represents : List Text → List Prefix → Type 0
  Represents seen acc =
      (d : Text) (pref : Prefix)
      → any (text_eq d) seen ≡ true
      → parse_prefix_or_ip net d ≡ some pref
      → prefix_contains pref addr ≡ true
      → Covers addr acc

  Represents-concat :
      (seen : List Text) (acc : List Prefix) (d : Text) (pref : Prefix)
      → Represents seen acc
      → parse_prefix_or_ip net d ≡ some pref
      → Represents (d ∷ seen) (acc ++ pref ∷ [])
  unfolding any
  Represents-concat seen acc d pref r reads t q hit found holds =
      let join = (Some-append_iff (λ x. prefix_contains x addr ≡ true) acc (pref ∷ [])).1 in
      elim (Bool-cases (text_eq t d)) [
        | inl same ↦
            join
              (inr (inl (let e = text_eq_sound t d same in ground (arith, e, found, reads, holds))))
        | inr other ↦ join (inl (r t q (ground arith) found holds))
      ]

  add_deny_iff :
      (seen : List Text) (acc : List Prefix) (entries : List Text) (out : List Prefix)
      → Represents seen acc
      → add_deny net seen acc entries ≡ ok out
      → Covers addr out ↔ (Covers addr acc ⊎ Some Names entries)
  unfolding add_deny
  add_deny_iff seen acc [] out r h = ground arith
  add_deny_iff seen acc (e ∷ es) out r h = elim (Bool-cases (is_empty (trim_space e))) [
    | inl blank ↦
        skip_iff (add_deny_iff seen acc es out r (ground arith))
          (λ m. m.0 (is_empty-eq (trim_space e) blank))
    | inr given ↦ elim (Bool-cases (any (text_eq (trim_space e)) seen)) [
      | inl twice ↦
          absorb_iff (add_deny_iff seen acc es out r (ground arith))
            (λ m. r (trim_space e) m.1.0 twice m.1.1 m.1.2)
      | inr new ↦ elim (Option-cases (parse_prefix_or_ip net (trim_space e))) [
        | inl fails ↦ absurd (ground arith)
        | inr (pref, reads) ↦
            move_iff
              (add_deny_iff (trim_space e ∷ seen) (acc ++ pref ∷ []) es out
                (Represents-concat seen acc (trim_space e) pref r reads) (ground arith))
              (Covers-concat acc e pref (is_empty-ne (trim_space e) given) reads)
      ]
    ]
  ]

  Represents-pairs :
      (ps : List (Text × Prefix))
      → All (λ d. parse_prefix_or_ip net d.0 ≡ some d.1) ps
      → Represents (map (λ d. d.0) ps) (map (λ d. d.1) ps)
  unfolding any
  Represents-pairs [] h d q hit found holds = absurd (ground arith)
  Represents-pairs (p ∷ ps) (reads, h) d q hit found holds = elim (Bool-cases (text_eq d p.0)) [
    | inl same ↦ inl (let e = text_eq_sound d p.0 same in ground (arith, e, found, reads, holds))
    | inr other ↦ inr (Represents-pairs ps h d q (ground arith) found holds)
  ]

  defaults-reads : ReadsDefaults net → All (λ d. parse_prefix_or_ip net d.0 ≡ some d.1) defaults
  unfolding parse_prefix_or_ip
  defaults-reads h = h

  private-Covers :
      (allow_private : Bool) (d ranges : List Prefix) {L : Type 0}
      → Covers addr d ↔ L
      → Covers addr (if allow_private then d else d ++ ranges)
        ↔ (L ⊎ ((allow_private ≡ false) × Covers addr ranges))
  private-Covers true d ranges (to, from) =
      (λ c. inl (to c), elim [ inl l ↦ from l | inr k ↦ absurd (true-ne-false k.0) ])
  private-Covers false d ranges (to, from) =
      let (split, join) = Some-append_iff (λ q. prefix_contains q addr ≡ true) d ranges in
      (
        λ c. elim (split c) [ inl k ↦ inl (to k) | inr k ↦ inr (refl, k) ],
        elim [ inl l ↦ join (inl (from l)) | inr k ↦ join (inr k.1) ],
      )

  module _ (allow_private : Bool) (deny allow : List Text) (p : NetworkPolicy)
      (reads : ReadsDefaults net)
      (made : new_network_policy net allow_private deny allow ≡ ok p) where
    pub parts :
        (d a : List Prefix) × (add_deny net (map (λ e. e.0) defaults) (map (λ e. e.1) defaults) deny
          ≡ ok d)
        × (add_allow net [] allow ≡ ok a)
        × (p.allow_private_ranges ≡ allow_private)
        × (p.deny_prefixes ≡ (if allow_private then d else d ++ private_ranges))
        × (p.allow_prefixes ≡ a)
    unfolding new_network_policy
    parts =
        let (d, later, hd) = >>=-ok _ _ made in
        let (a, e, ha) = >>=-ok _ _ later in
        (d, a, hd, ha, ground arith, ground arith, ground arith)

    pub allow_prefixes_iff : Covers addr p.allow_prefixes ↔ Some Names allow
    allow_prefixes_iff =
        let (d, a, hd, ha, e1, e2, e3) = parts in rw e3 (drop_iff (add_allow_iff [] allow a ha))

    pub deny_prefixes_iff : Covers addr p.deny_prefixes ↔ (
        (Covers addr (map (λ d. d.1) defaults) ⊎ Some Names deny)
        ⊎ ((allow_private ≡ false) × Covers addr private_ranges))
    deny_prefixes_iff =
        let (d, a, hd, ha, e1, e2, e3) = parts in
        let listed =
          add_deny_iff (map (λ e. e.0) defaults) (map (λ e. e.1) defaults) deny d
            (Represents-pairs defaults (defaults-reads reads)) hd in
        rw e2 (private-Covers allow_private d private_ranges listed)
