-- ===== src/Security/Policy/Laws.antt =====
-- What `checkAddr` decides, and which prefixes a policy holds.
use go_webssh.Base.{
  ◌≡◌, ◌↔◌, ◌⊎◌, true, false, List, ok, err, arith, any_iff, any-eq-false_iff, Some, All,
}
use go_webssh.Net.{Addr, Prefix, prefix_contains, is_private}
use go_webssh.Security.Policy.{NetworkPolicy, check_addr, is_blocked_class, denied}

-- The address lies in one of the prefixes.
abbrev pub Covers : Addr → List Prefix → Type 0
Covers addr = Some (λ pref. prefix_contains pref addr ≡ true)

-- The address lies in none of the prefixes.
abbrev pub Misses : Addr → List Prefix → Type 0
Misses addr = All (λ pref. prefix_contains pref addr ≡ false)

-- An address is permitted if an allow entry names it, or if no deny entry does and it is of no
-- blocked class, nor private where private ranges are not allowed.
abbrev pub Permits : NetworkPolicy → Addr → Type 0
Permits p addr =
    Covers addr p.allow_prefixes
    ⊎ (Misses addr p.deny_prefixes
        × (is_blocked_class addr ≡ false)
        × ((p.allow_private_ranges ≡ true) ⊎ (is_private addr ≡ false)))

-- `checkAddr` passes an address exactly when the policy permits it.
pub check_addr_iff :
    (p : NetworkPolicy) (addr : Addr) → (check_addr p addr ≡ ok tt) ↔ Permits p addr
unfolding check_addr
check_addr_iff p addr = grind (
  arith,
  any_iff (λ pref. prefix_contains pref addr) p.allow_prefixes,
  any-eq-false_iff (λ pref. prefix_contains pref addr) p.deny_prefixes,
)

-- It fails in one way only.
pub check_addr_cases :
    (p : NetworkPolicy) (addr : Addr)
    → (check_addr p addr ≡ ok tt) ⊎ (check_addr p addr ≡ err denied)
unfolding check_addr
check_addr_cases p addr = ground arith
