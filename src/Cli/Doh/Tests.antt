-- ===== src/Cli/Doh/Tests.antt =====
-- Two endpoints of which the first never answers, and the theorem there.
use go_webssh.Base.{
  ◌*◌, ◌≡◌, refl, inl, inr, true, false, none, some, List, [], ◌∷◌, ok, err, is_empty, arith,
  if◌then◌else◌,
}
use go_webssh.Int.{pos}
use go_webssh.Text.{codes, trim_space, text_eq}
use go_webssh.Net.{Addr, v4, Netip}
use go_webssh.Auth.Store.{second}
use go_webssh.Cli.Doh.{
  Endpoint, Fetch, failed, replied, read_reply, filter_addresses, parse_ip, has_type, lookup_host,
  parse_literal, with_timeout, empty_host,
}
use go_webssh.Cli.Doh.Lookup.{IsPrompt, lookup_host_live}

abbrev net : Netip
net = record {
  parse_addr = λ s. if text_eq s (codes "9.9.9.9") then some (v4 0x09090909) else none;
  parse_prefix = λ s. none;
  addr_string = λ a. [];
  lookup_ip = λ host. none;
}

abbrev stalled : Endpoint
stalled = record { usable = true; answer = λ rr now. (1000 * second, failed) }

abbrev answer : Fetch
answer = replied 80 200 (
    some (record {
      status = some (pos 0);
      answers =
          record { kind = pos 5; data_text = codes "alias." }
          ∷ record { kind = pos 1; data_text = codes " 9.9.9.9" }
          ∷ [];
    }))

abbrev serving : Endpoint
serving = record { usable = true; answer = λ rr now. (second, answer) }

serving-IsPrompt : IsPrompt net (10 * second) serving
unfolding read_reply filter_addresses parse_ip has_type trim_space text_eq
serving-IsPrompt = record { usable = refl; quick = λ now. ground arith; known = λ now. refl }

lookup_host_live_example :
    (ips : List Addr) × (lookup_host net (stalled ∷ serving ∷ []) (codes "w") 5 none ≡ ok ips)
    × (is_empty ips ≡ false)
unfolding trim_space with_timeout
lookup_host_live_example =
    lookup_host_live net (10 * second) (stalled ∷ serving ∷ []) (codes "w") 5 none (ground arith)
      (ground arith) refl (ground arith) (inr (inl serving-IsPrompt))

literal_runs : lookup_host net [] (codes " 9.9.9.9") 5 none ≡ ok (v4 0x09090909 ∷ [])
unfolding lookup_host parse_literal parse_ip trim_space text_eq
literal_runs = refl

empty_runs : lookup_host net (serving ∷ []) (codes "  ") 5 none ≡ err empty_host
unfolding lookup_host trim_space
empty_runs = refl
