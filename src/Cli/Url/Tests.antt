-- ===== src/Cli/Url/Tests.antt =====
-- URLs of a server, and the theorem there.
use go_webssh.Base.{◌≡◌, refl, ◌||◌, not, true, false, some, none, [], ok, err, arith}
use go_webssh.Text.{codes, text_eq, has_prefix, has_suffix, all_runes, cut_last, drop_last}
use go_webssh.Ws.Origin.{check_origin}
use go_webssh.Cli.Url.{
  Url, ClientOptions, direct, new_client, http_scheme, check_private, proxy_func, origin_from_url,
  split_port, strip, private_needs_https, websocket_url, trim_slash,
}
use go_webssh.Cli.Url.Origin.{base_url, upgrade, check_origin-origin_from_url}

check_origin-origin_from_url_example :
    check_origin [] (upgrade (base_url false (codes "h") (codes "80") []))
    ≡ (false || not (text_eq (codes "80") (codes "80")))
unfolding has_prefix all_runes
check_origin-origin_from_url_example =
    check_origin-origin_from_url false (codes "h") (codes "80") [] (ground arith) refl
      (ground arith) refl

abbrev base : Url
base = record { scheme = codes "wss"; has_user = false; host = codes "w:8443"; path = codes "/x/" }

abbrev options : ClientOptions
options = record {
  server_url = some base;
  private_connect = true;
  insecure_tls = false;
  no_proxy = true;
  proxy_url = [];
  proxy_env = [];
}

client_runs :
    new_client (λ t. none) options
    ≡ ok (record {
      base = record base { scheme = codes "https" };
      origin = codes "https://w:8443";
      proxy = direct;
    })
unfolding new_client http_scheme check_private proxy_func origin_from_url split_port text_eq
    cut_last all_runes strip has_prefix
client_runs = refl

private_runs :
    new_client
      (λ t. none)
      (record options { server_url = some (record base { scheme = codes "ws" }) })
    ≡ err private_needs_https
unfolding new_client http_scheme check_private text_eq
private_runs = refl

path_runs :
    websocket_url (record base { scheme = codes "https" }) (codes "/api/ws/ssh")
    ≡ record base { path = codes "/x/api/ws/ssh" }
unfolding websocket_url trim_slash text_eq has_suffix drop_last has_prefix
path_runs = refl
