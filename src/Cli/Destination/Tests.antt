-- ===== src/Cli/Destination/Tests.antt =====
-- Destinations as a user writes them, and the theorems there.
use go_webssh.Base.{◌≡◌, refl, ok, err, [], arith, any}
use go_webssh.Text.{codes, trim_space, contains, cut, cut_last, all_runes, is_space}
use go_webssh.Text.Decimal.{atoi}
use go_webssh.Cli.Destination.{
  Destination, parse_destination, parse_trimmed, parse_host, parse_plain, parse_bracketed,
  parse_port, split_host_port, is_url, invalid_port, missing_username,
}
use go_webssh.Cli.Destination.Print.{IsWritable, print, parse_destination-print}
use go_webssh.Cli.Destination.Runes.{is_common}

abbrev home : Destination
home = record { user = codes "me"; host = codes "fe80::1"; port = 2222 }

home-IsWritable : IsWritable home
unfolding is_common is_space any
home-IsWritable = record {
  user_runes = ground arith;
  host_given = refl;
  host_runes = ground arith;
  no_brackets = refl;
  small = omega arith;
}

parse_destination-print_example : parse_destination (print home) ≡ ok home
parse_destination-print_example = parse_destination-print home home-IsWritable

plain_runs :
    parse_destination (codes " host:22 ")
    ≡ ok (record { user = []; host = codes "host"; port = 22 })
unfolding parse_destination parse_trimmed parse_host parse_plain split_host_port any trim_space
    contains cut_last
plain_runs = refl

url_runs : parse_destination (codes "ssh://host") ≡ err is_url
unfolding parse_destination parse_trimmed trim_space contains
url_runs = refl

port_runs : parse_destination (codes "[::1]:0") ≡ err invalid_port
unfolding parse_destination parse_trimmed parse_host parse_bracketed parse_port trim_space contains
    cut cut_last atoi all_runes
port_runs = refl

user_runs : parse_destination (codes " @host") ≡ err missing_username
unfolding parse_destination parse_trimmed trim_space contains cut_last
user_runs = refl
