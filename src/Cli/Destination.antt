-- ===== src/Cli/Destination.antt =====
-- `ParseDestination` and `parsePort` of internal/cli/cli.go, with `net.SplitHostPort` where they call it.
pub mod Laws
mod Runes
mod Hosts
pub mod Print
mod Tests
use go_webssh.Base.{
  ℕ, Bool, true, false, not, ◌&&◌, ◌||◌, Option, none, some, [], ◌∷◌, Result, ok, err, ◌>>=◌, ◌>>◌,
  fail_if, or_fail, if◌then◌else◌, is_empty, any, ltb, ◌==◌,
}
use go_webssh.Text.{
  Text, codes, trim_space, contains, cut, cut_last, has_prefix, is_digit, all_runes,
}
use go_webssh.Text.Decimal.{atoi}

pub data DestinationError : Type 0 where
  missing_destination is_url missing_username missing_host : DestinationError
  invalid_ipv6 invalid_destination invalid_port : DestinationError

-- A destination; the port is 0 where none is given.
pub record Destination : Type 0 where
  pub user : Text
  pub host : Text
  pub port : ℕ

-- `parsePort`. Digits of other scripts than ASCII pass `unicode.IsDigit` and then fail in `strconv.Atoi`,
-- with the same error.
unfoldable pub parse_port : Text → Result DestinationError ℕ
unfolding all_runes atoi
parse_port s = do
  fail_if (is_empty s || not (all_runes is_digit s)) invalid_port
  port ← or_fail (atoi s) invalid_port
  fail_if (ltb port 1 || ltb 65535 port) invalid_port
  ok port

-- `net.SplitHostPort`, on a text that does not begin with a bracket.
unfoldable pub split_host_port : Text → Option (Text × Text)
unfolding any cut_last
split_host_port s = elim (cut_last b':' s) [
  | none ↦ none
  | some (host, port) ↦
      if any (λ c. c == b':') host || any (λ c. c == b'[' || c == b']') s
      then none
      else some (host, port)
]

-- What follows the bracket of an IPv6 address.
unfoldable pub parse_bracketed : Text → Text → Result DestinationError Destination
unfolding cut parse_port
parse_bracketed user s = elim (cut b']' s) [
  | none ↦ err invalid_ipv6
  | some ([], rest) ↦ err missing_host
  | some (c ∷ host, []) ↦ ok (record { user = user; host = c ∷ host; port = 0 })
  | some (c ∷ host, d ∷ rest) ↦
      if not (d == b':')
      then err invalid_destination
      else parse_port rest >>= λ port. ok (record { user = user; host = c ∷ host; port = port })
]

-- A host without brackets, with a port or without one.
unfoldable pub parse_plain : Text → Text → Result DestinationError Destination
unfolding parse_port
parse_plain user s = elim (split_host_port s) [
  | some (host, port_text) ↦ do
    port ← parse_port port_text
    fail_if (is_empty host) missing_host
    ok (record { user = user; host = host; port = port })
  | none ↦ do fail_if (is_empty s) missing_host; ok (record { user = user; host = s; port = 0 })
]

-- What follows the name of the user.
unfoldable pub parse_host : Text → Text → Result DestinationError Destination
unfolding parse_bracketed parse_plain
parse_host user [] = parse_plain user []
parse_host user (c ∷ s) = if c == b'[' then parse_bracketed user s else parse_plain user (c ∷ s)

-- The destination without its outer spaces.
unfoldable pub parse_trimmed : Text → Result DestinationError Destination
unfolding contains cut_last trim_space parse_host
parse_trimmed s = do
  fail_if (is_empty s) missing_destination
  fail_if (contains s (codes "://")) is_url
  elim (cut_last b'@' s) [
    | none ↦ parse_host [] s
    | some (user, rest) ↦
        fail_if (is_empty (trim_space user)) missing_username >> parse_host user rest
  ]

-- `ParseDestination`
unfoldable pub parse_destination : Text → Result DestinationError Destination
unfolding trim_space parse_trimmed
parse_destination s = parse_trimmed (trim_space s)
