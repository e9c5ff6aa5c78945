-- ===== src/Ws/Origin.antt =====
-- `checkOrigin`, `isSameOrigin` and `clientIP` of internal/ws/handler.go. A header that is missing is
-- the empty text.
pub mod Laws
mod Tests
use go_webssh.Base.{
  Bool, true, false, ◌||◌, Option, none, some, List, any, if◌then◌else◌, is_empty, ◌&&◌,
}
use go_webssh.Text.{Text, codes, text_eq, equal_fold, has_prefix, trim_prefix, before, trim_space}

-- The parts of a request that are looked at, and what `net.SplitHostPort` makes of its address.
pub record Request : Type 0 where
  pub host : Text
  pub origin : Text
  pub forwarded_for : Text
  pub remote_addr : Text
  pub remote_host : Option Text

-- `isSameOrigin`
unfoldable pub is_same_origin : Request → Text → Bool
unfolding has_prefix trim_prefix text_eq before
is_same_origin r origin =
    if has_prefix origin (codes "https://")
    then (let host = trim_prefix origin (codes "https://") in
        text_eq host r.host || text_eq host (before b':' r.host))
    else if has_prefix origin (codes "http://")
    then text_eq (trim_prefix origin (codes "http://")) r.host
    else false

-- `checkOrigin`, with the allowed origins of the configuration
unfoldable pub check_origin : List Text → Request → Bool
unfolding is_same_origin text_eq equal_fold any
check_origin allowed_origins r =
    is_empty r.origin
    || is_same_origin r r.origin
    || any (λ allowed. text_eq allowed (codes "*") || equal_fold allowed r.origin) allowed_origins

-- `clientIP`
unfoldable pub client_ip : Request → Text
unfolding before trim_space
client_ip r =
    if is_empty r.forwarded_for
    then (elim r.remote_host [ none ↦ r.remote_addr | some host ↦ host ])
    else trim_space (before b',' r.forwarded_for)
