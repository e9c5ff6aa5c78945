-- ===== src/Cli/Destination/Laws.antt =====
-- What `ParseDestination` returns.
use go_webssh.Base.{
  ℕ, ◌≤◌, ◌≡◌, refl, sym, inl, inr, ◌⊎◌, false, [], ◌∷◌, Result, ok, ◌==◌, arith, is_empty,
  Bool-cases, Option-cases, Result-cases,
}
use go_webssh.Text.{Text, trim_space, cut, cut_last}
use go_webssh.Text.Decimal.{atoi}
use go_webssh.Cli.Destination.{
  Destination, DestinationError, parse_port, split_host_port, parse_bracketed, parse_plain,
  parse_host, parse_trimmed, parse_destination,
}

-- A destination has a host, a user that is not blank if there is one, and a port up to 65535.
abbrev pub IsSound : Destination → Type 0
IsSound d =
    (is_empty d.host ≡ false)
    × ((d.user ≡ []) ⊎ (is_empty (trim_space d.user) ≡ false))
    × (d.port ≤ 65535)

pub parse_port_bounds : (s : Text) (port : ℕ) → parse_port s ≡ ok port → (1 ≤ port) × (port ≤ 65535)
unfolding parse_port
parse_port_bounds s port h = elim (Option-cases (atoi s)) [
  | inl bad ↦ absurd (ground (arith, h, bad))
  | inr (n, reads) ↦ ground (arith, h, reads)
]

-- The user is left out, or is not blank.
abbrev pub HasUser : Text → Type 0
HasUser user = (user ≡ []) ⊎ (is_empty (trim_space user) ≡ false)

sound :
    (user host : Text) (port : ℕ) (d : Destination)
    → HasUser user
    → is_empty host ≡ false
    → port ≤ 65535
    → ◌≡◌ {A = Result DestinationError Destination}
        (ok (record { user = user; host = host; port = port }))
        (ok d)
    → IsSound d
sound user host port d named full small h =
    let same : record { user = user; host = host; port = port } ≡ d = ground (arith, h) in
    rw (sym same) (full, named, small)

parse_bracketed-IsSound :
    (user s : Text) (d : Destination) → HasUser user → parse_bracketed user s ≡ ok d → IsSound d
unfolding parse_bracketed
parse_bracketed-IsSound user s d named h = elim (Option-cases (cut b']' s)) [
  | inl unclosed ↦ absurd (ground (arith, h, unclosed))
  | inr (([], rest), found) ↦ absurd (ground (arith, h, found))
  | inr ((c ∷ host, []), found) ↦
      sound user (c ∷ host) 0 d named refl (ground arith) (ground (arith, h, found))
  | inr ((c ∷ host, e ∷ rest), found) ↦ elim (Result-cases (parse_port rest)) [
    | inr (bad, fails) ↦ absurd (ground (arith, h, found, fails))
    | inl (port, reads) ↦
        sound user (c ∷ host) port d named refl ((parse_port_bounds rest port reads).1)
          (ground (arith, h, found, reads))
  ]
]

parse_plain-IsSound :
    (user s : Text) (d : Destination) → HasUser user → parse_plain user s ≡ ok d → IsSound d
unfolding parse_plain
parse_plain-IsSound user s d named h = elim (Option-cases (split_host_port s)) [
  | inl whole ↦
      sound user s 0 d named (ground (arith, h, whole)) (ground arith) (ground (arith, h, whole))
  | inr ((host, port_text), found) ↦ elim (Result-cases (parse_port port_text)) [
    | inr (bad, fails) ↦ absurd (ground (arith, h, found, fails))
    | inl (port, reads) ↦
        sound user host port d named (ground (arith, h, found, reads))
          ((parse_port_bounds port_text port reads).1) (ground (arith, h, found, reads))
  ]
]

parse_host-IsSound :
    (user s : Text) (d : Destination) → HasUser user → parse_host user s ≡ ok d → IsSound d
unfolding parse_host
parse_host-IsSound user [] d named h = parse_plain-IsSound user [] d named h
parse_host-IsSound user (c ∷ s) d named h = elim (Bool-cases (c == b'[')) [
  | inl bracket ↦ parse_bracketed-IsSound user s d named (ground (arith, h, bracket))
  | inr plain ↦ parse_plain-IsSound user (c ∷ s) d named (ground (arith, h, plain))
]

-- What is parsed has a host, a user that is not blank if one is given, and a port of at most 65535.
pub parse_destination-IsSound :
    (s : Text) (d : Destination) → parse_destination s ≡ ok d → IsSound d
unfolding parse_destination parse_trimmed
parse_destination-IsSound s d h = elim (Option-cases (cut_last b'@' (trim_space s))) [
  | inl alone ↦ parse_host-IsSound [] (trim_space s) d (inl refl) (ground (arith, h, alone))
  | inr ((user, rest), found) ↦
      parse_host-IsSound user rest d (inr (ground (arith, h, found))) (ground (arith, h, found))
]
