-- ===== src/Security/Policy.antt =====
-- internal/security/network_policy.go: which destinations the server may connect to.
pub mod Laws
pub mod Entries
pub mod Decision
pub mod Resolve
mod Tests
use go_webssh.Base.{
  ℕ, ◌+◌, ◌*◌, ◌^◌, Bool, true, false, not, ◌&&◌, ◌||◌, Option, none, some, List, [], ◌∷◌, ◌++◌,
  map, String, Result, ok, err, ◌>>=◌, ◌>>◌, fail_if, or_fail, if◌then◌else◌, is_empty, any,
}
use go_webssh.Int.{ℤ, out_of_range}
use go_webssh.Text.{
  Text, codes, text_eq, trim_space, to_lower, contains, has_prefix, has_suffix, drop_last,
  drop_like,
}
use go_webssh.Net.{
  Addr, invalid, v4, v6, Prefix, prefix4, prefix6, prefix_contains, unmap, is_valid, prefix_from,
  is_unspecified, is_loopback, is_link_local_unicast, is_link_local_multicast, is_private, Ip,
  addr_from_slice, Netip, itoa_ℤ, join_host_port,
}
use go_webssh.Code.{Code, ApiError}

-- The resolver and its time limit are the parameter `Netip`.
pub record NetworkPolicy : Type 0 where
  pub allow_private_ranges : Bool
  pub deny_prefixes : List Prefix
  pub allow_prefixes : List Prefix

-- What `NewNetworkPolicy` fails with: the entry that cannot be read.
pub data EntryError : Type 0 where
  invalid_deny invalid_allow : Text → EntryError

-- The prefixes that are always denied, as they are written and as `ParsePrefix` reads them.
abbrev pub defaults : List (Text × Prefix)
defaults =
    (codes "127.0.0.0/8", prefix4 (127 * 2 ^ 24) 8)
    ∷ (codes "::1/128", prefix6 1 128)
    ∷ (codes "0.0.0.0/8", prefix4 0 8)
    ∷ (codes "169.254.0.0/16", prefix4 ((169 * 256 + 254) * 2 ^ 16) 16)
    ∷ []

-- 10.0.0.0/8, 172.16.0.0/12, 192.168.0.0/16, fc00::/7 and fe80::/10.
abbrev pub private_ranges : List Prefix
private_ranges =
    prefix4 (10 * 2 ^ 24) 8
    ∷ prefix4 ((172 * 256 + 16) * 2 ^ 16) 12
    ∷ prefix4 ((192 * 256 + 168) * 2 ^ 16) 16
    ∷ prefix6 (0xfc00 * 2 ^ 112) 7
    ∷ prefix6 (0xfe80 * 2 ^ 112) 10
    ∷ []

module _ (net : Netip) where
  unfoldable pub parse_prefix_or_ip : Text → Option Prefix
  unfolding contains prefix_from
  parse_prefix_or_ip s =
      if contains s (codes "/")
      then net.parse_prefix s
      else elim (net.parse_addr s) [ none ↦ none | some addr ↦ prefix_from addr ]

  -- The loop over the deny entries: empty ones and those seen before are skipped.
  unfoldable pub add_deny : List Text → List Prefix → List Text → Result EntryError (List Prefix)
  unfolding trim_space text_eq any parse_prefix_or_ip
  add_deny seen acc [] = ok acc
  add_deny seen acc (entry ∷ entries) =
      let d = trim_space entry in
      let skipped = add_deny seen acc entries in
      let added = or_fail (parse_prefix_or_ip d) (invalid_deny d) >>= λ pref.
      add_deny (d ∷ seen) (acc ++ pref ∷ []) entries in
      if is_empty d || any (text_eq d) seen then skipped else added

  -- The loop over the allow entries: empty ones are skipped.
  unfoldable pub add_allow : List Prefix → List Text → Result EntryError (List Prefix)
  unfolding trim_space parse_prefix_or_ip
  add_allow acc [] = ok acc
  add_allow acc (entry ∷ entries) =
      let a = trim_space entry in
      let skipped = add_allow acc entries in
      let added = or_fail (parse_prefix_or_ip a) (invalid_allow a) >>= λ pref.
      add_allow (acc ++ pref ∷ []) entries in
      if is_empty a then skipped else added

  unfoldable pub new_network_policy : Bool → List Text → List Text → Result EntryError NetworkPolicy
  unfolding add_deny add_allow
  new_network_policy allow_private deny allow = do
    denied ← add_deny (map (λ d. d.0) defaults) (map (λ d. d.1) defaults) deny
    allowed ← add_allow [] allow
    ok (record {
      allow_private_ranges = allow_private;
      deny_prefixes = if allow_private then denied else denied ++ private_ranges;
      allow_prefixes = allowed;
    })

abbrev pub denied : ApiError
denied = record { code = Code.network_denied; message = "target host is blocked by network policy" }

-- The classes that are refused whatever the deny list holds.
unfoldable pub is_blocked_class : Addr → Bool
unfolding is_valid is_unspecified is_loopback is_link_local_unicast is_link_local_multicast
is_blocked_class addr =
    not (is_valid addr)
    || is_unspecified addr
    || is_loopback addr
    || is_link_local_unicast addr
    || is_link_local_multicast addr

-- `checkAddr`
unfoldable pub check_addr : NetworkPolicy → Addr → Result ApiError (Unit {0})
unfolding any prefix_contains is_blocked_class is_private
check_addr p addr = if any (λ pref. prefix_contains pref addr) p.allow_prefixes then ok tt else do
  fail_if (any (λ pref. prefix_contains pref addr) p.deny_prefixes) denied
  fail_if (is_blocked_class addr) denied
  fail_if (not p.allow_private_ranges && is_private addr) denied

-- The loop over the resolved addresses: all are checked, the first one is kept.
unfoldable pub check_resolved : NetworkPolicy → Addr → List Ip → Result ApiError Addr
unfolding addr_from_slice unmap check_addr is_valid
check_resolved p resolved [] = ok resolved
check_resolved p resolved (ip ∷ ips) = do
  raw ← or_fail (addr_from_slice ip) denied
  check_addr p (unmap raw)
  check_resolved p (if is_valid resolved then resolved else unmap raw) ips

abbrev pub host_error : String → ApiError
host_error message = record { code = Code.invalid_host; message = message }

-- `host[1 : len(host)-1]` where the host is written in brackets.
unfoldable pub strip_brackets : Text → Text
unfolding has_prefix has_suffix drop_last drop_like
strip_brackets host =
    if has_prefix host (codes "[") && has_suffix host (codes "]")
    then drop_last (drop_like host (codes "["))
    else host

unfoldable pub is_localhost : Text → Bool
unfolding text_eq to_lower has_suffix
is_localhost host =
    let lower = to_lower host in
    text_eq lower (codes "localhost") || has_suffix lower (codes ".localhost")

module _ (net : Netip) where
  -- What a host name resolves to, if every address of it may be used.
  unfoldable pub resolve_name : NetworkPolicy → Text → Result ApiError Addr
  unfolding check_resolved
  resolve_name p host = do
    ips ← or_fail (net.lookup_ip host) (host_error "failed to resolve host")
    fail_if (is_empty ips) (host_error "host resolved to no addresses")
    check_resolved p invalid ips

  -- The address of a host that passes the policy, literal or resolved.
  unfoldable pub resolve_host : NetworkPolicy → Text → Result ApiError Addr
  unfolding resolve_name check_addr unmap
  resolve_host p host = elim (net.parse_addr host) [
    | some ip ↦ check_addr p (unmap ip) >> ok (unmap ip)
    | none ↦ resolve_name p host
  ]

  -- `ResolveAllowedHostPort`
  unfoldable pub resolve_allowed_host_port : NetworkPolicy → Text → ℤ → Result ApiError Text
  resolve_allowed_host_port p host port = do
    fail_if (out_of_range 1 65535 port)
        (record { code = Code.invalid_port; message = "port must be between 1 and 65535" })
    let trimmed = trim_space host
    fail_if (is_empty trimmed) (host_error "host is required")
    fail_if (contains trimmed (codes "://")) (host_error "host must not include URL scheme")
    let bare = strip_brackets trimmed
    fail_if (is_localhost bare) denied
    addr ← resolve_host p bare
    ok (join_host_port (net.addr_string addr) (itoa_ℤ port))

  -- `ValidateHostPort`
  unfoldable pub validate_host_port : NetworkPolicy → Text → ℤ → Result ApiError (Unit {0})
  validate_host_port p host port = resolve_allowed_host_port p host port >>= λ _. ok tt
