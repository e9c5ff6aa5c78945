-- ===== src/Cli/Doh.antt =====
-- The resolution of names over HTTPS in internal/cli/doh.go. Time passes only while a query waits; a context that
-- has ended fails the query at once. Errors keep their kind and not their text.
pub mod Lookup
mod Tests
use go_webssh.Base.{
  ℕ, ◌+◌, ◌*◌, ◌-◌, ◌/◌, Bool, true, false, not, ◌&&◌, ◌||◌, Option, none, some, List, [], ◌∷◌,
  ◌++◌, Result, ok, err, ◌>>=◌, ◌>>◌, fail_if, or_fail, if◌then◌else◌, length, is_empty, ltb, leb,
  ◌==◌,
}
use mathlib.Core.List.{reverse}
use go_webssh.Int.{ℤ, pos, eq_ℤ}
use go_webssh.Text.{Text, codes, trim_space, has_prefix, has_suffix, drop_last, drop_like}
use go_webssh.Net.{Addr, invalid, v4, v6, Netip, unmap}
use go_webssh.Auth.Store.{second}

-- `dohTypeA` and `dohTypeAAAA`
pub data RecordType : Type 0 where
  type_a type_aaaa : RecordType

abbrev pub type_number : RecordType → ℤ
type_number type_a = pos 1
type_number type_aaaa = pos 28

-- `dohAnswer`, without the name
pub record Answer : Type 0 where
  pub kind : ℤ
  pub data_text : Text

-- `dohResponse`
pub record Response : Type 0 where
  pub status : Option ℤ
  pub answers : List Answer

-- What becomes of a request: it fails, its body cannot be read, or there is a body of some length, with the
-- status of HTTP and the response if the body decodes.
pub data Fetch : Type 0 where
  failed unreadable : Fetch
  replied : ℕ → ℕ → Option Response → Fetch

-- An endpoint: whether its URL is one of HTTPS with a host, and after what time it answers a query that is asked at
-- some time, with what.
pub record Endpoint : Type 0 where
  pub usable : Bool
  pub answer : RecordType → ℕ → ℕ × Fetch

pub data QueryError : Type 0 where
  invalid_endpoint timed_out request_failed not_read too_large bad_json no_status no_records :
      QueryError
  http_status : ℕ → QueryError
  dns_status : ℤ → QueryError

pub data LookupError : Type 0 where
  empty_host no_endpoints : LookupError
  all_failed : List (List QueryError) → LookupError

-- `net.ParseIP`, which takes no zone. An address in an IPv6 form of IPv4 is the IPv4 address, as for `To4`.
unfoldable pub parse_ip : Netip → Text → Option Addr
unfolding unmap
parse_ip net s = elim (net.parse_addr s) [
  | none ↦ none
  | some invalid ↦ none
  | some (v4 a) ↦ some (v4 a)
  | some (v6 a none) ↦ some (unmap (v6 a none))
  | some (v6 a (some zone)) ↦ none
]

-- Whether an address is one of the type: `To4` for A, none for AAAA.
unfoldable pub has_type : RecordType → Addr → Bool
has_type type_a (v4 a) = true
has_type type_aaaa (v6 a _) = true
has_type _ _ = false

-- `filterAddresses`
unfoldable pub filter_addresses : Netip → RecordType → List Answer → List Addr
unfolding parse_ip has_type trim_space
filter_addresses net rr [] = []
filter_addresses net rr (a ∷ answers) =
    let rest = filter_addresses net rr answers in
    if not (eq_ℤ a.kind (type_number rr))
    then rest
    else elim (parse_ip net (trim_space a.data_text)) [
      | none ↦ rest
      | some ip ↦ if has_type rr ip then ip ∷ rest else rest
    ]

-- `query` behind the request
unfoldable pub read_reply : Netip → RecordType → Fetch → Result QueryError (List Addr)
unfolding filter_addresses
read_reply net rr failed = err request_failed
read_reply net rr unreadable = err not_read
read_reply net rr (replied size status body) = do
  fail_if (ltb (64 * 1024) size) too_large
  fail_if (not (status == 200)) (http_status status)
  parsed ← or_fail body bad_json
  code ← or_fail parsed.status no_status
  fail_if (not (eq_ℤ code (pos 0))) (dns_status code)
  ok (filter_addresses net rr parsed.answers)

-- `min`
abbrev pub earlier : ℕ → ℕ → ℕ
earlier a b = if ltb a b then a else b

-- `dohQueryTimeout`
abbrev pub query_timeout : ℕ
query_timeout = 10 * second

-- A result, and the time when it is there.
abbrev pub Timed : Type 0 → Type 0
Timed A = A × ℕ

-- `withDoHTimeout`: the deadline of the context, or one of its own.
unfoldable pub with_timeout : ℕ → Option ℕ → ℕ
with_timeout now none = now + 4 * query_timeout
with_timeout now (some deadline) = deadline

-- The errors of both queries.
abbrev both :
    Result QueryError (List Addr)
    → Result QueryError (List Addr)
    → Result (List QueryError) (List Addr)
both (err e) (err f) = err (e ∷ f ∷ [])
both (err e) (ok _) = err (e ∷ [])
both (ok _) (err f) = err (f ∷ [])
both (ok _) (ok _) = ok []

-- `len(ips) > 0`
abbrev pub found : Result QueryError (List Addr) → List Addr
found (err e) = []
found (ok ips) = ips

-- What `lookupEndpoint` makes of its queries, of which the second is asked where the first leaves time and finds
-- nothing.
unfoldable pub join :
    ℕ
    → Timed (Result QueryError (List Addr))
    → Timed (Result QueryError (List Addr))
    → Timed (Result (List QueryError) (List Addr))
join deadline (r4, after4) (r6, after6) =
    if not (is_empty (found r4))
    then (ok (found r4), after4)
    else if leb deadline after4
    then (err (timed_out ∷ []), after4)
    else if not (is_empty (found r6))
    then (ok (found r6), after6)
    else if leb deadline after6
    then (err (timed_out ∷ []), after6)
    else (both r4 r6, after6)

-- The share of the time for one of some endpoints that are left.
unfoldable pub budget : ℕ → ℕ → ℕ → ℕ
budget now deadline left = earlier ((deadline - now) / left) (2 * query_timeout)

-- What an endpoint adds to the errors.
abbrev pub errors_of : Result (List QueryError) (List Addr) → List QueryError
errors_of (err es) = es
errors_of (ok ips) = no_records ∷ []

abbrev pub addresses_of : Result (List QueryError) (List Addr) → List Addr
addresses_of (err es) = []
addresses_of (ok ips) = ips

module _ (net : Netip) where
  -- `query`, from a time up to a deadline
  unfoldable pub query : Endpoint → RecordType → ℕ → ℕ → Timed (Result QueryError (List Addr))
  unfolding read_reply
  query e rr now deadline =
      let limit = earlier deadline (now + query_timeout) in
      let (took, fetch) = e.answer rr now in
      if not e.usable
      then (err invalid_endpoint, now)
      else if leb limit now
      then (err timed_out, now)
      else if ltb (now + took) limit
      then (read_reply net rr fetch, now + took)
      else (err timed_out, limit)

  -- `lookupEndpoint`
  unfoldable pub lookup_endpoint : Endpoint → ℕ → ℕ → Timed (Result (List QueryError) (List Addr))
  unfolding query join
  lookup_endpoint e now deadline =
      let first = query e type_a now deadline in
      join deadline first (query e type_aaaa (first.1) deadline)

  -- The loop of `lookup` over the endpoints, with the errors so far.
  unfoldable pub ask :
      List Endpoint → List (List QueryError) → ℕ → ℕ → Result LookupError (List Addr)
  unfolding lookup_endpoint budget
  ask [] errs now deadline = err (all_failed errs)
  ask (e ∷ endpoints) errs now deadline =
      let share = budget now deadline (length (e ∷ endpoints)) in
      let (r, after) = lookup_endpoint e now (earlier deadline (now + share)) in
      let worse = errs ++ errors_of r ∷ [] in
      let rest = ask endpoints worse after deadline in
      if not (is_empty (addresses_of r))
      then ok (addresses_of r)
      else if leb deadline after
      then err (all_failed worse)
      else rest

  -- `parseLiteralIP`
  unfoldable pub parse_literal : Text → Option Addr
  unfolding parse_ip has_prefix has_suffix drop_last drop_like
  parse_literal host = elim (parse_ip net host) [
    | some ip ↦ some ip
    | none ↦
        if has_prefix host (codes "[") && has_suffix host (codes "]")
        then parse_ip net (drop_last (drop_like host (codes "[")))
        else none
  ]

  -- `lookup`, from a time, with the deadline of the context if it has one
  unfoldable pub lookup_host : List Endpoint → Text → ℕ → Option ℕ → Result LookupError (List Addr)
  unfolding ask parse_literal trim_space with_timeout
  lookup_host endpoints given now deadline =
      let host = trim_space given in
      if is_empty host then err empty_host else elim (parse_literal host) [
        | some ip ↦ ok (ip ∷ [])
        | none ↦
            if is_empty endpoints
            then err no_endpoints
            else ask endpoints [] now (with_timeout now deadline)
      ]
