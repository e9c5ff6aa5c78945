-- ===== src/Security/Policy/Tests.antt =====
-- Runs of the network policy, and the theorems at concrete policies and hosts.
use go_webssh.Base.{
  ◌≡◌, refl, ◌↔◌, ◌⊎◌, true, false, none, some, Option, List, [], ◌∷◌, ◌++◌, ok, err, Some, ◌*◌,
  ◌+◌, ◌^◌, if◌then◌else◌,
}
use go_webssh.Int.{pos, InRange}
use go_webssh.Text.{Text, codes, text_eq, trim_space, contains}
use go_webssh.Net.{Addr, invalid, v4, v6, prefix4, prefix6, Netip, join_host_port, itoa_ℤ}
use go_webssh.Security.Policy.{
  NetworkPolicy, denied, defaults, check_addr, new_network_policy, resolve_allowed_host_port,
  resolve_host, is_localhost, strip_brackets,
}
use go_webssh.Security.Policy.Entries.{Names}
use go_webssh.Security.Policy.Decision.{
  IsDenied, check_addr-new_network_policy, zone_ignores_deny, unspecified_zone_passes,
}
use go_webssh.Security.Policy.Resolve.{ComesFrom, resolve_allowed_host_port_sound}

find {ℓ} : {A : Type ℓ} → Text → List (Text × A) → Option A
unfolding text_eq
find k [] = none
find k ((j, v) ∷ m) = let rest = find k m in if text_eq j k then some v else rest

-- A platform that knows a few addresses and one name.
abbrev sample_net : Netip
sample_net = record {
  parse_addr = λ s. find s (
      (codes "10.0.0.1", v4 (10 * 2 ^ 24 + 1))
      ∷ (codes "8.8.8.8", v4 0x08080808)
      ∷ (codes "::%lo", v6 0 (some (codes "lo")))
      ∷ []);
  parse_prefix = λ s. find s (defaults ++ (codes "8.8.0.0/16", prefix4 0x08080000 16) ∷ []);
  addr_string =
      λ a. elim a [ invalid ↦ codes "invalid IP" | v4 n ↦ itoa_ℤ (pos n) | v6 n z ↦ codes "::" ];
  lookup_ip = λ s. find s (
      (codes "two.example", (8 ∷ 8 ∷ 4 ∷ 4 ∷ []) ∷ (10 ∷ 0 ∷ 0 ∷ 1 ∷ []) ∷ [])
      ∷ (codes "one.example", (8 ∷ 8 ∷ 4 ∷ 4 ∷ []) ∷ [])
      ∷ []);
}

abbrev sample_policy : NetworkPolicy
sample_policy = record {
  allow_private_ranges = true;
  deny_prefixes =
      prefix4 (127 * 2 ^ 24) 8
      ∷ prefix6 1 128
      ∷ prefix4 0 8
      ∷ prefix4 ((169 * 256 + 254) * 2 ^ 16) 16
      ∷ prefix4 0x08080000 16
      ∷ [];
  allow_prefixes = prefix4 0x08080808 32 ∷ [];
}

runs : Unit {0}
unfolding new_network_policy resolve_allowed_host_port find trim_space contains strip_brackets
    resolve_host is_localhost join_host_port itoa_ℤ
runs = tt

sample_policy_made :
    new_network_policy sample_net true
      (codes " 8.8.0.0/16" ∷ codes "127.0.0.0/8" ∷ codes "" ∷ [])
      (codes "8.8.8.8" ∷ [])
    ≡ ok sample_policy
unfolding runs
sample_policy_made = refl

refuses_localhost :
    resolve_allowed_host_port sample_net sample_policy (codes "A.LocalHost") (pos 22) ≡ err denied
unfolding runs
refuses_localhost = refl

check_addr-new_network_policy_example : (check_addr sample_policy (v4 0x08080808) ≡ ok tt) ↔ (
    Some (Names sample_net (v4 0x08080808)) (codes "8.8.8.8" ∷ [])
    ⊎ (¬ IsDenied sample_net true
        (codes " 8.8.0.0/16" ∷ codes "127.0.0.0/8" ∷ codes "" ∷ [])
        (codes "8.8.8.8" ∷ [])
        (v4 0x08080808)))
unfolding runs
check_addr-new_network_policy_example =
    check_addr-new_network_policy sample_net true
      (codes " 8.8.0.0/16" ∷ codes "127.0.0.0/8" ∷ codes "" ∷ []) (codes "8.8.8.8" ∷ [])
      (v4 0x08080808) sample_policy (refl, (refl, (refl, (refl, tt)))) sample_policy_made

resolve_one :
    resolve_allowed_host_port sample_net sample_policy (codes " 8.8.8.8 ") (pos 22)
    ≡ ok (codes "134744072:22")
unfolding runs
resolve_one = refl

-- A name is refused if one of its addresses is.
resolve_two :
    resolve_allowed_host_port sample_net
      (record sample_policy { allow_private_ranges = false })
      (codes "two.example")
      (pos 22)
    ≡ err denied
unfolding runs
resolve_two = refl

resolve_allowed_host_port_sound_example :
    InRange 1 65535 (pos 22)
    × (is_localhost (strip_brackets (trim_space (codes " 8.8.8.8 "))) ≡ false)
    × ((r : Addr) × (codes "134744072:22"
          ≡ join_host_port (sample_net.addr_string r) (itoa_ℤ (pos 22)))
        × (check_addr sample_policy r ≡ ok tt)
        × ComesFrom sample_net sample_policy (strip_brackets (trim_space (codes " 8.8.8.8 "))) r)
resolve_allowed_host_port_sound_example =
    resolve_allowed_host_port_sound sample_net sample_policy (codes " 8.8.8.8 ") (pos 22)
      (codes "134744072:22") resolve_one

zone_ignores_deny_example :
    check_addr
      (record sample_policy { deny_prefixes = prefix6 0 0 ∷ [] })
      (v6 (0x2001 * 2 ^ 112) (some (codes "eth0")))
    ≡ check_addr sample_policy (v6 (0x2001 * 2 ^ 112) (some (codes "eth0")))
zone_ignores_deny_example =
    zone_ignores_deny sample_policy (prefix6 0 0 ∷ []) (0x2001 * 2 ^ 112) (codes "eth0")

unspecified_zone_passes_example : check_addr sample_policy (v6 0 (some (codes "lo"))) ≡ ok tt
unspecified_zone_passes_example = unspecified_zone_passes sample_policy (codes "lo")
