-- ===== src/Net.antt =====
-- Go's `net/netip` as far as the program uses it: addresses and prefixes are numbers, and the tests
-- on them are those of the package. Parsing, printing and the resolver are the parameter `Netip`.

use mathlib.Core.List.{foldl}
use go_webssh.Base.{
  ℕ, ◌+◌, ◌-◌, ◌*◌, ◌/◌, ◌%◌, ◌^◌, Bool, true, false, ◌&&◌, ◌||◌, Option, none, some, List, ◌∷◌,
  ◌++◌, ◌==◌, if◌then◌else◌, length, any,
}
use go_webssh.Int.{ℤ, pos, negsuc}
use go_webssh.Text.{Text, codes}
use go_webssh.Text.Decimal.{itoa}

-- `netip.Addr`: the zero value, an IPv4 address, or an IPv6 address with its zone if it has one.
pub data Addr : Type 0 where
  invalid : Addr
  v4 : ℕ → Addr
  v6 : ℕ → Option Text → Addr

-- `netip.Prefix`, as `ParsePrefix` and `PrefixFrom` make it: its address has no zone.
pub data Prefix : Type 0 where
  prefix4 : ℕ → ℕ → Prefix
  prefix6 : ℕ → ℕ → Prefix

-- `Prefix.Contains`: an address with a zone is in no prefix, and families do not mix.
unfoldable pub prefix_contains : Prefix → Addr → Bool
prefix_contains (prefix4 p bits) (v4 a) = a / 2 ^ (32 - bits) == p / 2 ^ (32 - bits)
prefix_contains (prefix6 p bits) (v6 a none) = a / 2 ^ (128 - bits) == p / 2 ^ (128 - bits)
prefix_contains _ _ = false

-- `Addr.Unmap`: an IPv4-mapped IPv6 address becomes the IPv4 address.
unfoldable pub unmap : Addr → Addr
unmap (v6 a zone) = if a / 2 ^ 32 == 0xffff then v4 (a % 2 ^ 32) else v6 a zone
unmap a = a

-- `Addr.Is6`
abbrev pub is6 : Addr → Bool
is6 (v6 _ _) = true
is6 _ = false

-- `netip.PrefixFrom(addr, bits)` at the address's full length, as the program calls it.
unfoldable pub prefix_from : Addr → Option Prefix
prefix_from invalid = none
prefix_from (v4 a) = some (prefix4 a 32)
prefix_from (v6 a _) = some (prefix6 a 128)

unfoldable pub is_valid : Addr → Bool
is_valid invalid = false
is_valid _ = true

-- `IsUnspecified` compares with the two addresses, zone included.
unfoldable pub is_unspecified : Addr → Bool
is_unspecified (v4 a) = a == 0
is_unspecified (v6 a none) = a == 0
is_unspecified _ = false

-- 127.0.0.0/8, and ::1 with any zone; an IPv4-mapped address is judged as IPv4.
unfoldable pub is_loopback : Addr → Bool
unfolding unmap
is_loopback a = elim (unmap a) [ invalid ↦ false | v4 n ↦ n / 2 ^ 24 == 127 | v6 n _ ↦ n == 1 ]

-- 169.254.0.0/16 and fe80::/10.
unfoldable pub is_link_local_unicast : Addr → Bool
unfolding unmap
is_link_local_unicast a = elim (unmap a) [
  | invalid ↦ false
  | v4 n ↦ n / 2 ^ 16 == 169 * 256 + 254
  | v6 n _ ↦ n / 2 ^ 118 == 0xfe80 / 2 ^ 6
]

-- 224.0.0.0/24, and ff02::/16 with any flags.
unfoldable pub is_link_local_multicast : Addr → Bool
unfolding unmap
is_link_local_multicast a = elim (unmap a) [
  | invalid ↦ false
  | v4 n ↦ n / 2 ^ 8 == 224 * 65536
  | v6 n _ ↦ (n / 2 ^ 120 == 0xff) && (n / 2 ^ 112 % 16 == 2)
]

-- 10.0.0.0/8, 172.16.0.0/12, 192.168.0.0/16 and fc00::/7.
unfoldable pub is_private : Addr → Bool
unfolding unmap
is_private a = elim (unmap a) [
  | invalid ↦ false
  | v4 n ↦ (n / 2 ^ 24 == 10) || (n / 2 ^ 20 == 172 * 16 + 1) || (n / 2 ^ 16 == 192 * 256 + 168)
  | v6 n _ ↦ n / 2 ^ 121 == 0xfc / 2
]

-- A `net.IP` is its bytes, in network order.
abbrev pub Ip : Type 0
Ip = List ℕ

unfoldable pub big_endian : Ip → ℕ
big_endian = foldl (λ n b. n * 256 + b) 0

-- `netip.AddrFromSlice`
unfoldable pub addr_from_slice : Ip → Option Addr
unfolding big_endian
addr_from_slice ip =
    if length ip == 4
    then some (v4 (big_endian ip))
    else if length ip == 16
    then some (v6 (big_endian ip) none)
    else none

-- What the program uses of the platform: reading and printing of addresses, and a DNS query, whose
-- answer is a list of addresses or a failure (also by the time limit).
pub record Netip : Type 0 where
  pub parse_addr : Text → Option Addr
  pub parse_prefix : Text → Option Prefix
  pub addr_string : Addr → Text
  pub lookup_ip : Text → Option (List Ip)

-- `strconv.Itoa` on an `int`.
unfoldable pub itoa_ℤ : ℤ → Text
unfolding itoa
itoa_ℤ (pos n) = itoa n
itoa_ℤ (negsuc n) = b'-' ∷ itoa (n + 1)

-- `net.JoinHostPort`: a host with a colon is put in brackets.
unfoldable pub join_host_port : Text → Text → Text
join_host_port host port =
    if any (λ c. c == b':') host then b'[' ∷ host ++ codes "]:" ++ port else host ++ b':' ∷ port
