-- ===== src/Cli/Url/Origin.antt =====
-- Whether the server takes the origin that the client names for one of its own host.
use go_webssh.Base.{
  ℕ, ◌≡◌, refl, inl, inr, ◌∙◌, Bool, true, false, none, [], ◌∷◌, ◌++◌, arith, Bool-cases, any, not,
  ◌||◌,
}
use go_webssh.Text.{
  Text, codes, text_eq, has_prefix, trim_prefix, before, all_runes, is_digit, drop_like,
}
use go_webssh.Text.Laws.{text_eq_refl, Avoids, cut_last-append}
use go_webssh.Ws.Origin.{Request, is_same_origin, check_origin}
use go_webssh.Cli.Url.{Url, strip, split_port, url_string, origin_from_url}

abbrev pub scheme_of : Bool → Text
scheme_of true = codes "https"
scheme_of false = codes "http"

-- A base URL with a port.
abbrev pub base_url : Bool → Text → Text → Text → Url
base_url secure name port path = record {
  scheme = scheme_of secure;
  has_user = false;
  host = name ++ b':' ∷ port;
  path = path;
}

-- The upgrade request as it reaches the server without a proxy in between.
abbrev pub upgrade : Url → Request
upgrade base = record {
  host = base.host;
  origin = origin_from_url base;
  forwarded_for = [];
  remote_addr = [];
  remote_host = none;
}

same_https :
    (r : Request) (host : Text)
    → is_same_origin r (url_string (codes "https") host)
      ≡ (text_eq host r.host || text_eq host (before b':' r.host))
unfolding is_same_origin has_prefix trim_prefix drop_like
same_https r host = refl

same_http :
    (r : Request) (host : Text)
    → is_same_origin r (url_string (codes "http") host) ≡ text_eq host r.host
unfolding is_same_origin has_prefix trim_prefix drop_like
same_http r host = refl

before-append : (sep : ℕ) (s t : Text) → Avoids sep s → before sep (s ++ sep ∷ t) ≡ s
unfolding before
before-append sep [] t h = ground arith
before-append sep (c ∷ s) t (n, h) = ground (arith, before-append sep s t h, n)

split_port-port :
    (name port : Text)
    → has_prefix name (codes "[") ≡ false
    → Avoids b':' port
    → all_runes is_digit port ≡ true
    → split_port (name ++ b':' ∷ port) ≡ (name, port)
unfolding split_port strip
split_port-port name port bare plain digits =
    rw (split_port, cut_last-append b':' name port plain, digits, strip, bare) refl

longer : (name port : Text) → text_eq name (name ++ b':' ∷ port) ≡ false
unfolding text_eq
longer [] port = refl
longer (c ∷ name) port = ground (arith, longer name port)

origin_accepted :
    (secure : Bool) (name port path : Text)
    → Avoids b':' name
    → has_prefix name (codes "[") ≡ false
    → Avoids b':' port
    → all_runes is_digit port ≡ true
    → let base = base_url secure name port path in
      is_same_origin (upgrade base) (origin_from_url base)
      ≡ (secure || not (text_eq port (codes "80")))
unfolding origin_from_url is_same_origin
origin_accepted true name port path named bare plain digits =
    let parts = split_port-port name port bare plain digits in
    let host = name ++ b':' ∷ port in
    let r = upgrade (base_url true name port path) in
    elim (Bool-cases (text_eq port (codes "443"))) [
      | inl default ↦
          rw (parts, default)
            (same_https r name
              ∙ rw (longer name port, before-append b':' name port named, text_eq_refl name) refl)
      | inr other ↦ rw (parts, other) (same_https r host ∙ rw (text_eq_refl host) refl)
    ]
origin_accepted false name port path named bare plain digits =
    let parts = split_port-port name port bare plain digits in
    let host = name ++ b':' ∷ port in
    let r = upgrade (base_url false name port path) in
    elim (Bool-cases (text_eq port (codes "80"))) [
      | inl default ↦ rw (parts, default) (same_http r name ∙ longer name port)
      | inr other ↦ rw (parts, other) (same_http r host ∙ text_eq_refl host)
    ]

or_false : (b : Bool) → (b || false) ≡ b
or_false true = refl
or_false false = refl

-- Where the server allows no other origins, it lets the client in that names the origin of a URL with a port exactly if
-- the URL is not one of HTTP with the port 80, which the origin leaves out and the request names.
pub check_origin-origin_from_url :
    (secure : Bool) (name port path : Text)
    → Avoids b':' name
    → has_prefix name (codes "[") ≡ false
    → Avoids b':' port
    → all_runes is_digit port ≡ true
    → check_origin [] (upgrade (base_url secure name port path))
      ≡ (secure || not (text_eq port (codes "80")))
unfolding check_origin any origin_from_url
check_origin-origin_from_url true name port path named bare plain digits =
    or_false _ ∙ origin_accepted true name port path named bare plain digits
check_origin-origin_from_url false name port path named bare plain digits =
    or_false _ ∙ origin_accepted false name port path named bare plain digits
