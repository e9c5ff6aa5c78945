-- ===== src/Security/HostKey/Tests.antt =====
-- Host key policies at concrete files, and the theorem there.
use go_webssh.Base.{◌≡◌, refl, ◌⊎◌, true, false, ok, is_empty, List, [], ◌∷◌, some}
use go_webssh.Code.{Code, ApiError}
use go_webssh.Text.{codes, text_eq, trim_space, to_lower}
use go_webssh.Security.HostKey.{
  Files, missing, KeyLink, key_error, other_error, as_key_error, wrap_known_hosts, known_hosts,
  insecure_ignore, new_host_key_callback,
}
use go_webssh.Security.HostKey.Laws.{new_host_key_callback_sound}

abbrev sample_files : Files
sample_files = record { stat = λ f. missing; write_ok = λ f. true; load_ok = λ f. true }

callback_made :
    new_host_key_callback sample_files (codes " Known-Hosts") (codes "f")
    ≡ ok (known_hosts (codes "f"))
unfolding new_host_key_callback text_eq trim_space to_lower
callback_made = refl

new_host_key_callback_sound_example :
    ((to_lower (trim_space (codes " Known-Hosts")) ≡ codes "insecure-ignore")
      × (known_hosts (codes "f") ≡ insecure_ignore))
    ⊎ ((to_lower (trim_space (codes " Known-Hosts")) ≡ codes "known-hosts")
        × (known_hosts (codes "f") ≡ known_hosts (codes "f"))
        × (is_empty (codes "f") ≡ false)
        × (true ≡ true))
new_host_key_callback_sound_example =
    new_host_key_callback_sound sample_files (codes " Known-Hosts") (codes "f")
      (known_hosts (codes "f")) callback_made

abbrev sample_chain : List KeyLink
sample_chain = other_error ∷ key_error 2 ∷ []

abbrev changed : ApiError
changed = record {
  code = Code.host_key_changed;
  message = "host key verification failed: key has changed";
}

key_changed : wrap_known_hosts (some sample_chain) ≡ some changed
unfolding wrap_known_hosts as_key_error
key_changed = refl
