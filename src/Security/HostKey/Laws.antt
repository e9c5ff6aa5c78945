-- ===== src/Security/HostKey/Laws.antt =====
-- What the host key policy accepts.
use go_webssh.Base.{
  ℕ, zero, suc, ◌≡◌, refl, ◌≢◌, ◌⊎◌, inl, inr, true, false, Option, none, some, List, ok, arith,
  is_empty, Option-cases,
}
use go_webssh.Text.{Text, codes, trim_space, to_lower}
use go_webssh.Text.Laws.{text_eq_iff}
use go_webssh.Code.{Code, ApiError}
use go_webssh.Security.HostKey.{
  KeyLink, as_key_error, wrap_known_hosts, Files, Callback, known_hosts, insecure_ignore,
  new_host_key_callback,
}

-- Where there is a callback, the policy is, up to case and spaces, either insecure-ignore, and the
-- callback ignores host keys, or known-hosts, and the callback is that of the file, which is named and
-- could be read.
pub new_host_key_callback_sound :
    (files : Files) (policy file : Text) (callback : Callback)
    → new_host_key_callback files policy file ≡ ok callback
    → ((to_lower (trim_space policy) ≡ codes "insecure-ignore") × (callback ≡ insecure_ignore))
      ⊎ ((to_lower (trim_space policy) ≡ codes "known-hosts")
          × (callback ≡ known_hosts file)
          × (is_empty file ≡ false)
          × (files.load_ok file ≡ true))
unfolding new_host_key_callback
new_host_key_callback_sound files policy file callback h = ground (
  arith,
  text_eq_iff (to_lower (trim_space policy)) (codes "known-hosts"),
  text_eq_iff (to_lower (trim_space policy)) (codes "insecure-ignore"),
)

-- The wrapped callback refuses a key only where the known hosts do, and then calls it changed if the
-- first key error of the chain wants other keys, and untrusted if there is none or it wants no key.
pub wrap_known_hosts_sound :
    (result : Option (List KeyLink)) (e : ApiError)
    → wrap_known_hosts result ≡ some e
    → (chain : List KeyLink) × (result ≡ some chain)
      × (((e.code ≡ Code.host_key_changed)
            × ((want : ℕ) × (as_key_error chain ≡ some want) × (want ≢ 0)))
          ⊎ ((e.code ≡ Code.host_key_untrusted)
              × ((as_key_error chain ≡ none) ⊎ (as_key_error chain ≡ some 0))))
unfolding wrap_known_hosts
wrap_known_hosts_sound none e h = absurd (ground arith)
wrap_known_hosts_sound (some chain) e h = elim (Option-cases (as_key_error chain)) [
  | inl absent ↦ (chain, refl, inr (ground (arith, h, absent), inl absent))
  | inr (zero, found) ↦ (chain, refl, inr (ground (arith, h, found), inr found))
  | inr (suc want, found) ↦
      (chain, refl, inl (ground (arith, h, found), (suc want, found, λ z. absurd (ground arith))))
]
