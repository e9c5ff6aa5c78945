-- ===== src/Cli/Url.antt =====
-- The URLs of internal/cli/cli.go: `newClient`, `proxyFunc`, `originFromURL`, `apiURL` and `websocketURL`.
pub mod Origin
mod Tests
use go_webssh.Base.{
  Bool, true, false, not, ◌&&◌, ◌||◌, Option, none, some, [], ◌∷◌, ◌++◌, Result, ok, err, ◌>>=◌,
  ◌>>◌, fail_if, or_fail, if◌then◌else◌, is_empty,
}
use go_webssh.Text.{
  Text, codes, text_eq, trim_space, to_lower, has_prefix, has_suffix, cut_last, drop_last,
  drop_like, all_runes, is_digit,
}

-- `url.URL`, as far as it is used.
pub record Url : Type 0 where
  pub scheme : Text
  pub has_user : Bool
  pub host : Text
  pub path : Text

-- `URL.Hostname` takes the brackets away.
unfoldable pub strip : Text → Text
unfolding has_prefix has_suffix drop_last drop_like
strip host =
    if has_prefix host (codes "[") && has_suffix host (codes "]")
    then drop_last (drop_like host (codes "["))
    else host

-- `URL.Hostname` and `URL.Port`
unfoldable pub split_port : Text → Text × Text
unfolding strip cut_last all_runes
split_port host = elim (cut_last b':' host) [
  | none ↦ (strip host, [])
  | some (name, port) ↦ if all_runes is_digit port then (strip name, port) else (strip host, [])
]

-- `URL.String` of a scheme and a host, for a host of which nothing is escaped
abbrev pub url_string : Text → Text → Text
url_string scheme host = scheme ++ codes "://" ++ host

-- `originFromURL`
unfoldable pub origin_from_url : Url → Text
unfolding split_port text_eq
origin_from_url u =
    let scheme =
      if text_eq u.scheme (codes "wss")
      then codes "https"
      else if text_eq u.scheme (codes "ws")
      then codes "http"
      else u.scheme in
    let (name, port) = split_port u.host in
    let stripped =
      (text_eq scheme (codes "https") && text_eq port (codes "443"))
      || (text_eq scheme (codes "http") && text_eq port (codes "80")) in
    url_string scheme (if stripped then name else u.host)

-- `strings.TrimSuffix(path, "/")`
unfoldable pub trim_slash : Text → Text
unfolding has_suffix drop_last
trim_slash path = if has_suffix path (codes "/") then drop_last path else path

-- `apiURL`
unfoldable pub api_url : Url → Text → Url
unfolding trim_slash
api_url base path = record base { path = trim_slash base.path ++ path }

-- `websocketURL`
unfoldable pub websocket_url : Url → Text → Url
unfolding trim_slash text_eq
websocket_url base path = record base {
  scheme =
      if text_eq base.scheme (codes "https")
      then codes "wss"
      else if text_eq base.scheme (codes "http")
      then codes "ws"
      else base.scheme;
  path = trim_slash base.path ++ path;
}

pub data ClientError : Type 0 where
  invalid_url unsupported_scheme : ClientError
  private_needs_https private_needs_verification private_has_user : ClientError
  invalid_proxy unsupported_proxy : ClientError

-- The options that the client is made of; a URL is as `url.Parse` reads it, if it does.
pub record ClientOptions : Type 0 where
  pub server_url : Option Url
  pub private_connect : Bool
  pub insecure_tls : Bool
  pub no_proxy : Bool
  pub proxy_url : Text
  pub proxy_env : Text

-- How requests reach the server: directly, as the environment says, or by a proxy.
pub data ProxyChoice : Type 0 where
  direct from_environment : ProxyChoice
  by_proxy : Url → ProxyChoice

-- `proxyFunc`; `parse` is `url.Parse`
unfoldable pub proxy_func : (Text → Option Url) → ClientOptions → Result ClientError ProxyChoice
unfolding trim_space to_lower text_eq
proxy_func parse opt =
    let given = trim_space opt.proxy_url in
    let raw = if is_empty given then trim_space opt.proxy_env else given in
    if opt.no_proxy then ok direct else if is_empty raw then ok from_environment else (do
      u ← or_fail (parse raw) invalid_proxy
      fail_if (is_empty u.scheme || is_empty u.host) invalid_proxy
      let scheme = to_lower u.scheme
      fail_if (not (text_eq scheme (codes "http") || text_eq scheme (codes "https")))
          unsupported_proxy
      ok (by_proxy u))

-- The scheme of the base URL for HTTP.
unfoldable pub http_scheme : Text → Option Text
unfolding text_eq
http_scheme scheme =
    if text_eq scheme (codes "http") || text_eq scheme (codes "https")
    then some scheme
    else if text_eq scheme (codes "ws")
    then some (codes "http")
    else if text_eq scheme (codes "wss")
    then some (codes "https")
    else none

-- What `newClient` makes: the base URL, its origin, and the way to it.
pub record Client : Type 0 where
  pub base : Url
  pub origin : Text
  pub proxy : ProxyChoice

-- The checks of the private mode.
unfoldable pub check_private : ClientOptions → Url → Result ClientError (Unit {0})
unfolding text_eq
check_private opt base = do
  fail_if (opt.private_connect && not (text_eq base.scheme (codes "https"))) private_needs_https
  fail_if (opt.private_connect && opt.insecure_tls) private_needs_verification
  fail_if (opt.private_connect && base.has_user) private_has_user

-- `newClient`
unfoldable pub new_client : (Text → Option Url) → ClientOptions → Result ClientError Client
unfolding http_scheme check_private proxy_func origin_from_url
new_client parse opt = do
  parsed ← or_fail opt.server_url invalid_url
  fail_if (is_empty parsed.host) invalid_url
  scheme ← or_fail (http_scheme parsed.scheme) unsupported_scheme
  let base : Url = record parsed { scheme = scheme }
  check_private opt base
  proxy ← proxy_func parse opt
  ok (record { base = base; origin = origin_from_url base; proxy = proxy })
