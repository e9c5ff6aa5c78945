-- ===== src/Security/Policy/Resolve.antt =====
-- What `ResolveAllowedHostPort` returns: an address that has passed the policy.
use go_webssh.Base.{
  ◌≡◌, ◌⊎◌, inl, inr, true, false, none, some, List, [], ◌∷◌, ok, arith, All, Result-cases,
  Option-cases, Bool-cases, is_empty, if◌then◌else◌,
}
use go_webssh.Int.{ℤ, InRange}
use go_webssh.Text.{Text, trim_space}
use go_webssh.Net.{
  Addr, invalid, unmap, is_valid, Ip, addr_from_slice, Netip, itoa_ℤ, join_host_port,
}
use go_webssh.Security.Policy.Laws.{check_addr_cases}
use go_webssh.Security.Policy.{
  NetworkPolicy, check_addr, check_resolved, resolve_name, resolve_host, resolve_allowed_host_port,
  strip_brackets, is_localhost,
}

unmap-valid : (a : Addr) → is_valid a ≡ true → is_valid (unmap a) ≡ true
unfolding unmap is_valid
unmap-valid a h = ground arith

addr_from_slice-valid : (ip : Ip) (a : Addr) → addr_from_slice ip ≡ some a → is_valid a ≡ true
unfolding addr_from_slice is_valid
addr_from_slice-valid ip a h = ground arith

module _ (p : NetworkPolicy) where
  -- A resolved address that the policy passes.
  abbrev pub IsUsable : Ip → Type 0
  IsUsable ip = (raw : Addr) × (addr_from_slice ip ≡ some raw) × (check_addr p (unmap raw) ≡ ok tt)

  -- One round of the loop: the address is usable, and the loop goes on with the first address.
  check_resolved-step :
      (a : Addr) (ip : Ip) (ips : List Ip) (r : Addr)
      → check_resolved p a (ip ∷ ips) ≡ ok r
      → (raw : Addr) × (addr_from_slice ip ≡ some raw)
        × (check_addr p (unmap raw) ≡ ok tt)
        × (check_resolved p (if is_valid a then a else unmap raw) ips ≡ ok r)
  unfolding check_resolved
  check_resolved-step a ip ips r h = elim (Option-cases (addr_from_slice ip)) [
    | inl fails ↦ absurd (ground arith)
    | inr (raw, e) ↦ elim (check_addr_cases p (unmap raw)) [
      | inl passes ↦ (raw, e, passes, ground arith)
      | inr refused ↦ absurd (ground arith)
    ]
  ]

  check_resolved-valid :
      (a : Addr) (ips : List Ip) (r : Addr)
      → is_valid a ≡ true
      → check_resolved p a ips ≡ ok r
      → (r ≡ a) × All IsUsable ips
  check_resolved-valid a [] r v h = (unfold check_resolved in ground arith, tt)
  check_resolved-valid a (ip ∷ ips) r v h =
      let (raw, e, passes, later) = check_resolved-step a ip ips r h in
      let (same, rest) = check_resolved-valid a ips r v (rw v at later) in
      (same, ((raw, e, passes), rest))

  -- The name resolves to `first` and possibly more addresses, all usable, and `r` is the first.
  abbrev pub IsFirstOf : Addr → List Ip → Type 0
  IsFirstOf r [] = ⊥
  IsFirstOf r (ip ∷ ips) =
      ((raw : Addr) × (addr_from_slice ip ≡ some raw) × (r ≡ unmap raw) × (check_addr p r ≡ ok tt))
      × All IsUsable ips

  check_resolved-first :
      (ips : List Ip) (r : Addr)
      → is_empty ips ≡ false
      → check_resolved p invalid ips ≡ ok r
      → IsFirstOf r ips
  check_resolved-first [] r n h = absurd (ground arith)
  check_resolved-first (ip ∷ ips) r n h =
      let (raw, e, passes, later) = check_resolved-step invalid ip ips r h in
      let (same, rest) =
        check_resolved-valid (unmap raw) ips r (unmap-valid raw (addr_from_slice-valid ip raw e))
          (unfold is_valid in later) in
      ((raw, e, same, rw same passes), rest)

module _ (net : Netip) (p : NetworkPolicy) where
  -- Where a permitted address comes from: it is the host itself, or the first of the addresses that
  -- the name resolves to, all of which are permitted.
  abbrev pub ComesFrom : Text → Addr → Type 0
  ComesFrom host r =
      ((ip : Addr) × (net.parse_addr host ≡ some ip) × (r ≡ unmap ip))
      ⊎ ((ips : List Ip) × (net.parse_addr host ≡ none)
          × (net.lookup_ip host ≡ some ips)
          × IsFirstOf p r ips)

  first-passes : (ips : List Ip) (r : Addr) → IsFirstOf p r ips → check_addr p r ≡ ok tt
  first-passes [] r h = absurd h
  first-passes (ip ∷ ips) r ((raw, e, same, passes), rest) = passes

  resolve_name-first :
      (host : Text) (r : Addr)
      → resolve_name net p host ≡ ok r
      → (ips : List Ip) × (net.lookup_ip host ≡ some ips) × IsFirstOf p r ips
  unfolding resolve_name
  resolve_name-first host r h = elim (Option-cases (net.lookup_ip host)) [
    | inl fails ↦ absurd (ground arith)
    | inr (ips, e) ↦ elim (Bool-cases (is_empty ips)) [
      | inl none_found ↦ absurd (ground arith)
      | inr found ↦ (ips, e, check_resolved-first p ips r found (ground arith))
    ]
  ]

  resolve_host-passes :
      (host : Text) (r : Addr)
      → resolve_host net p host ≡ ok r
      → (check_addr p r ≡ ok tt) × ComesFrom host r
  unfolding resolve_host
  resolve_host-passes host r h = elim (Option-cases (net.parse_addr host)) [
    | inl name ↦
        let (ips, found, first) = resolve_name-first host r (ground arith) in
        (first-passes ips r first, inr (ips, name, found, first))
    | inr (ip, e) ↦ elim (check_addr_cases p (unmap ip)) [
      | inl passes ↦ let same : r ≡ unmap ip = ground arith in (rw same passes, inl (ip, e, same))
      | inr refused ↦ absurd (ground arith)
    ]
  ]

  -- What `ResolveAllowedHostPort` returns is the text of an address and of the port: the port lies
  -- between 1 and 65535, the host is not a name of the local host, the address passes the policy,
  -- and it is the host itself or the first of the addresses that the host resolves to, of which
  -- every one passes.
  pub resolve_allowed_host_port_sound :
      (host : Text) (port : ℤ) (out : Text)
      → resolve_allowed_host_port net p host port ≡ ok out
      → InRange 1 65535 port
        × (is_localhost (strip_brackets (trim_space host)) ≡ false)
        × ((r : Addr) × (out ≡ join_host_port (net.addr_string r) (itoa_ℤ port))
            × (check_addr p r ≡ ok tt)
            × ComesFrom (strip_brackets (trim_space host)) r)
  unfolding resolve_allowed_host_port
  resolve_allowed_host_port_sound host port out h =
      let bare = strip_brackets (trim_space host) in
      elim (Result-cases (resolve_host net p bare)) [
        | inl (r, resolved) ↦
            let (passes, origin) = resolve_host-passes bare r resolved in
            (ground arith, ground arith, (r, ground arith, passes, origin))
        | inr (e, fails) ↦ absurd (ground arith)
      ]
