-- ===== src/Cli/Destination/Print.antt =====
-- Destinations as a user writes them are parsed as they are meant.
use go_webssh.Base.{
  ℕ, zero, suc, ◌≤◌, ◌≡◌, refl, ◌≢◌, ◌∙◌, ap, inl, inr, true, false, [], ◌∷◌, ◌++◌, ok, ◌==◌, ◌&&◌,
  arith, All, All-append, is_empty, Bool-cases, any, if◌then◌else◌, not,
}
use go_webssh.Text.{Text, is_space}
use go_webssh.Text.Laws.{cut_last-none, cut_last-append}
use go_webssh.Text.Trim.{IsSolid, trim_space-solid}
use go_webssh.Text.Decimal.{itoa, itoa-digits}
use go_webssh.Cli.Destination.{Destination, parse_host, parse_trimmed, parse_destination}
use go_webssh.Cli.Destination.Runes.{
  is_common, has_colon, brackets, no_url, digits-common, common-Avoids_slash, common-Avoids_at,
  common-IsSolid, IsPlain, IsPlain-IsSolid, IsPlain-Avoids_slash,
}
use go_webssh.Cli.Destination.Hosts.{print_port, print_address, parse_host-print}

-- `[user@]host[:port]`
unfoldable pub print : Destination → Text
unfolding print_address
print d =
    let address = print_address d.host d.port in
    if is_empty d.user then address else d.user ++ b'@' ∷ address

-- Neither the user nor the host has a space or a slash, the host has no at sign and no bracket, and
-- the port is at most 65535.
pub record IsWritable (d : Destination) : Type 0 where
  pub user_runes : All (λ c. not (is_space c) && not (c == b'/') ≡ true) d.user
  pub host_given : is_empty d.host ≡ false
  pub host_runes : All (λ c. is_common c ≡ true) d.host
  pub no_brackets : any brackets d.host ≡ false
  pub small : d.port ≤ 65535

port-common : (port : ℕ) → All (λ c. is_common c ≡ true) (print_port port)
unfolding print_port is_common is_space
port-common zero = tt
port-common (suc n) = (refl, digits-common (itoa (suc n)) (itoa-digits (suc n)))

address-common :
    (host : Text) (port : ℕ)
    → All (λ c. is_common c ≡ true) host
    → All (λ c. is_common c ≡ true) (print_address host port)
unfolding print_address is_common is_space
address-common host port h = elim (Bool-cases (has_colon host)) [
  | inl colon ↦ rw colon (
    refl,
    All-append (λ c. is_common c ≡ true) host (b']' ∷ print_port port) h (refl, port-common port),
  )
  | inr plain ↦
      rw plain (All-append (λ c. is_common c ≡ true) host (print_port port) h (port-common port))
]

address-given :
    (host : Text) (port : ℕ) → is_empty host ≡ false → is_empty (print_address host port) ≡ false
unfolding print_address any
address-given [] port given = absurd (ground arith)
address-given (c ∷ host) port given = ground arith

-- A trimmed text without slashes and with a user.
parse_trimmed-user :
    (user address : Text)
    → is_empty user ≡ false
    → IsPlain user
    → All (λ c. is_common c ≡ true) address
    → parse_trimmed (user ++ b'@' ∷ address) ≡ parse_host user address
unfolding parse_trimmed
parse_trimmed-user [] address given user_runes runes = absurd (ground arith)
parse_trimmed-user (c ∷ user) address given user_runes runes =
    rw
      (
        no_url (c ∷ user ++ b'@' ∷ address) (
            All-append (λ c. c ≢ b'/') (c ∷ user) (b'@' ∷ address)
              (IsPlain-Avoids_slash (c ∷ user) user_runes)
              ((λ e. ground arith), common-Avoids_slash address runes)),
        cut_last-append b'@' (c ∷ user) address (common-Avoids_at address runes),
        trim_space-solid (c ∷ user) (IsPlain-IsSolid (c ∷ user) user_runes),
      )
      refl

parse_trimmed-alone :
    (address : Text)
    → is_empty address ≡ false
    → All (λ c. is_common c ≡ true) address
    → parse_trimmed address ≡ parse_host [] address
unfolding parse_trimmed
parse_trimmed-alone address given runes =
    rw
      (
        given,
        no_url address (common-Avoids_slash address runes),
        cut_last-none b'@' address (common-Avoids_at address runes),
      )
      refl

user-IsSolid :
    (user address : Text)
    → IsPlain user
    → All (λ c. is_common c ≡ true) address
    → IsSolid (user ++ b'@' ∷ address)
unfolding is_space
user-IsSolid user address h k =
    All-append (λ c. is_space c ≡ false) user (b'@' ∷ address) (IsPlain-IsSolid user h)
      (refl, common-IsSolid address k)

parse_destination-solid : (s : Text) → IsSolid s → parse_destination s ≡ parse_trimmed s
unfolding parse_destination
parse_destination-solid s h = ap parse_trimmed (trim_space-solid s h)

print-user :
    (d : Destination)
    → is_empty d.user ≡ false
    → print d ≡ d.user ++ b'@' ∷ print_address d.host d.port
unfolding print
print-user d named = rw named refl

print-alone : (d : Destination) → is_empty d.user ≡ true → print d ≡ print_address d.host d.port
unfolding print
print-alone d alone = rw alone refl

empty_text : (s : Text) → is_empty s ≡ true → [] ≡ s
empty_text [] h = refl
empty_text (c ∷ s) h = absurd (ground arith)

-- A destination as it is written, `[user@]host[:port]` with brackets around a host that has a colon, is parsed as
-- it is meant, if its parts have no spaces and no runes that part them.
pub parse_destination-print : (d : Destination) → IsWritable d → parse_destination (print d) ≡ ok d
parse_destination-print d w =
    let address = print_address d.host d.port in
    let runes = address-common d.host d.port w.host_runes in
    let parses = parse_host-print d.user d.host d.port w.host_given w.no_brackets w.small in
    elim (Bool-cases (is_empty d.user)) [
      | inl alone ↦
          ap parse_destination (print-alone d alone)
          ∙ parse_destination-solid address (common-IsSolid address runes)
          ∙ parse_trimmed-alone address (address-given d.host d.port w.host_given) runes
          ∙ ap (λ u. parse_host u address) (empty_text d.user alone)
          ∙ parses
      | inr named ↦
          ap parse_destination (print-user d named)
          ∙ parse_destination-solid (d.user ++ b'@' ∷ address)
              (user-IsSolid d.user address w.user_runes runes)
          ∙ parse_trimmed-user d.user address named w.user_runes runes
          ∙ parses
    ]
