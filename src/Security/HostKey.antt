-- ===== src/Security/HostKey.antt =====
-- internal/security/hostkey.go: the callback of a host key policy, and its errors.
pub mod Laws
mod Tests
use go_webssh.Base.{
  ℕ, Bool, true, false, Option, none, some, List, [], ◌∷◌, Result, ok, err, if◌then◌else◌, is_empty,
  ◌==◌,
}
use go_webssh.Text.{Text, codes, text_eq, trim_space, to_lower}
use go_webssh.Code.{Code, ApiError}

-- One error of a chain of wrapped errors: a `KeyError` of the knownhosts package, with the number of
-- the keys that it wants, or another one.
pub data KeyLink : Type 0 where
  key_error : ℕ → KeyLink
  other_error : KeyLink

-- `asKeyError`: the first key error along the chain.
unfoldable pub as_key_error : List KeyLink → Option ℕ
as_key_error [] = none
as_key_error (key_error want ∷ chain) = some want
as_key_error (other_error ∷ chain) = as_key_error chain

-- `wrapKnownHosts`, on what the callback returns: nothing, or the chain of its error.
unfoldable pub wrap_known_hosts : Option (List KeyLink) → Option ApiError
unfolding as_key_error
wrap_known_hosts none = none
wrap_known_hosts (some chain) = some (elim (as_key_error chain) [
  | none ↦ record { code = Code.host_key_untrusted; message = "host key verification failed" }
  | some want ↦
      if want == 0
      then record { code = Code.host_key_untrusted; message = "host key not found in known_hosts" }
      else record {
        code = Code.host_key_changed;
        message = "host key verification failed: key has changed";
      }
])

-- What `os.Stat` says of a file.
pub data Stat : Type 0 where
  exists missing unreadable : Stat

-- The file system and the knownhosts package: the state of a file, whether it can be written, and
-- whether its entries can be read.
pub record Files : Type 0 where
  pub stat : Text → Stat
  pub write_ok : Text → Bool
  pub load_ok : Text → Bool

pub data Callback : Type 0 where
  known_hosts : Text → Callback
  insecure_ignore : Callback

pub data CallbackError : Type 0 where
  file_required create_failed stat_failed load_failed unsupported : CallbackError

-- The callback over a known hosts file that is there.
abbrev load : Files → Text → Result CallbackError Callback
load files file = if files.load_ok file then ok (known_hosts file) else err load_failed

-- `NewHostKeyCallback`
unfoldable pub new_host_key_callback : Files → Text → Text → Result CallbackError Callback
new_host_key_callback files policy file =
    let name = to_lower (trim_space policy) in
    if text_eq name (codes "known-hosts")
    then (if is_empty file then err file_required else elim (files.stat file) [
      | exists ↦ load files file
      | missing ↦ if files.write_ok file then load files file else err create_failed
      | unreadable ↦ err stat_failed
    ])
    else if text_eq name (codes "insecure-ignore")
    then ok insecure_ignore
    else err unsupported
