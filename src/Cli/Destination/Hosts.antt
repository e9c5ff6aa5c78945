-- ===== src/Cli/Destination/Hosts.antt =====
-- A host and a port, as they are written, are parsed as they are meant.
use go_webssh.Base.{
  append_nil, ℕ, zero, suc, ◌≤◌, ◌≡◌, refl, ◌∙◌, ap, inl, inr, true, false, none, some, [], ◌∷◌,
  ◌++◌, ok, arith, All, is_empty, Bool-cases, any, if◌then◌else◌,
}
use go_webssh.Text.{Text, is_digit}
use go_webssh.Text.Laws.{cut-append, cut_last-none, cut_last-append}
use go_webssh.Text.Decimal.{itoa, itoa-digits}
use go_webssh.Cli.Destination.{split_host_port, parse_bracketed, parse_plain, parse_host}
use go_webssh.Cli.Destination.Runes.{
  has_colon, brackets, parse_port-itoa, any-append, any-brackets-digits, Avoids-colon,
  digits-Avoids-colon, brackets-Avoids,
}

unfoldable pub print_port : ℕ → Text
print_port zero = []
print_port (suc n) = b':' ∷ itoa (suc n)

-- A host with a colon goes in brackets, as for `net.JoinHostPort`.
unfoldable pub print_address : Text → ℕ → Text
unfolding print_port
print_address host port =
    if has_colon host then b'[' ∷ host ++ b']' ∷ print_port port else host ++ print_port port

split_host_port-alone : (host : Text) → has_colon host ≡ false → split_host_port host ≡ none
unfolding split_host_port
split_host_port-alone host plain =
    rw (split_host_port, cut_last-none b':' host (Avoids-colon host plain)) refl

split_host_port-port :
    (host digits : Text)
    → has_colon host ≡ false
    → any brackets host ≡ false
    → All (λ c. is_digit c ≡ true) digits
    → split_host_port (host ++ b':' ∷ digits) ≡ some (host, digits)
unfolding split_host_port any
split_host_port-port host digits plain bare numeric =
    let colon_bare : any brackets (b':' ∷ digits) ≡ false = any-brackets-digits digits numeric in
    rw
      (
        split_host_port,
        cut_last-append b':' host digits (digits-Avoids-colon digits numeric),
        plain,
        any-append brackets host (b':' ∷ digits) bare colon_bare,
      )
      refl

parse_plain-alone :
    (user host : Text)
    → is_empty host ≡ false
    → has_colon host ≡ false
    → parse_plain user host ≡ ok (record { user = user; host = host; port = 0 })
unfolding parse_plain
parse_plain-alone user host given plain =
    rw (parse_plain, split_host_port-alone host plain, given) refl

-- A host without a colon.
parse_plain-print :
    (user host : Text) (port : ℕ)
    → is_empty host ≡ false
    → has_colon host ≡ false
    → any brackets host ≡ false
    → port ≤ 65535
    → parse_plain user (host ++ print_port port)
      ≡ ok (record { user = user; host = host; port = port })
unfolding parse_plain print_port
parse_plain-print user host zero given plain bare small =
    ap (parse_plain user) (append_nil host) ∙ parse_plain-alone user host given plain
parse_plain-print user host (suc n) given plain bare small =
    rw
      (
        parse_plain,
        split_host_port-port host (itoa (suc n)) plain bare (itoa-digits (suc n)),
        parse_port-itoa (suc n) (omega arith) small,
        given,
      )
      refl

parse_bracketed-print :
    (user host : Text) (port : ℕ)
    → is_empty host ≡ false
    → any brackets host ≡ false
    → port ≤ 65535
    → parse_bracketed user (host ++ b']' ∷ print_port port)
      ≡ ok (record { user = user; host = host; port = port })
unfolding parse_bracketed print_port
parse_bracketed-print user [] port given bare small = absurd (ground arith)
parse_bracketed-print user (c ∷ host) zero given bare small =
    rw (parse_bracketed, cut-append b']' (c ∷ host) [] (brackets-Avoids (c ∷ host) bare)) refl
parse_bracketed-print user (c ∷ host) (suc n) given bare small =
    rw
      (
        parse_bracketed,
        cut-append b']' (c ∷ host) (b':' ∷ itoa (suc n)) (brackets-Avoids (c ∷ host) bare),
        parse_port-itoa (suc n) (omega arith) small,
      )
      refl

parse_host-plain : (user s : Text) → any brackets s ≡ false → parse_host user s ≡ parse_plain user s
unfolding parse_host any
parse_host-plain user [] bare = refl
parse_host-plain user (c ∷ s) bare = ground (arith, bare)

any-brackets-port : (port : ℕ) → any brackets (print_port port) ≡ false
unfolding any print_port
any-brackets-port zero = refl
any-brackets-port (suc n) = any-brackets-digits (itoa (suc n)) (itoa-digits (suc n))

pub parse_host-print :
    (user host : Text) (port : ℕ)
    → is_empty host ≡ false
    → any brackets host ≡ false
    → port ≤ 65535
    → parse_host user (print_address host port)
      ≡ ok (record { user = user; host = host; port = port })
unfolding print_address parse_host
parse_host-print user host port given bare small = elim (Bool-cases (has_colon host)) [
  | inl colon ↦ rw colon (parse_bracketed-print user host port given bare small)
  | inr plain ↦ rw plain (
      parse_host-plain user (host ++ print_port port)
        (any-append brackets host (print_port port) bare (any-brackets-port port))
      ∙ parse_plain-print user host port given plain bare small)
]
