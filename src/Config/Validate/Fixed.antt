-- ===== src/Config/Validate/Fixed.antt =====
-- `Validate` of internal/config/config.go on a configuration that is ready.
use go_webssh.Base.{
  ◌≤◌, ◌≡◌, refl, sym, ◌∙◌, ◌&&◌, ltb, ◌≢◌, ◌⊎◌, inl, inr, true, false, List, [], ◌∷◌, ok, arith,
  is_empty, ap,
}
use go_webssh.Int.{ℤ}
use go_webssh.Text.{Text, codes, text_eq, trim_space, to_lower, byte_len}
use go_webssh.Text.Laws.{text_eq_iff}
use go_webssh.Config.Types.{Config, CredentialsConfig, AuthConfig}
use go_webssh.Config.Validate.{
  positive_or, check_required, policy_of, check_policy, check_credentials, fill_auth, fill_ssh,
  fill_tunnel, validate,
}
use go_webssh.Config.Validate.Laws.{AreNew, check_ports_iff}
use go_webssh.Config.Validate.Ready.{IsReady, IsGiven, IsPositive, IsStorage, IsPolicy}

positive_or_same : (x y : ℤ) → IsPositive x → positive_or x y ≡ x
positive_or_same x y h = ground arith

AreNew-nil : (ports : List ℤ) → AreNew [] ports
AreNew-nil [] = tt
AreNew-nil (port ∷ ports) = (tt, AreNew-nil ports)

known : to_lower (trim_space (codes "known-hosts")) ≡ codes "known-hosts"
unfolding to_lower trim_space
known = refl

ignored : to_lower (trim_space (codes "insecure-ignore")) ≡ codes "insecure-ignore"
unfolding to_lower trim_space
ignored = refl

policy_of-known :
    (c : Config) → c.ssh.host_key_policy ≡ codes "known-hosts" → policy_of c ≡ codes "known-hosts"
unfolding policy_of
policy_of-known c h = ap (λ s. to_lower (trim_space s)) h ∙ known

policy_of-ignored :
    (c : Config)
    → c.ssh.host_key_policy ≡ codes "insecure-ignore"
    → policy_of c ≡ codes "insecure-ignore"
unfolding policy_of
policy_of-ignored c h = ap (λ s. to_lower (trim_space s)) h ∙ ignored

policy_of-ready : (c : Config) → IsPolicy c.ssh → policy_of c ≡ c.ssh.host_key_policy
policy_of-ready c (inl (h, _)) = policy_of-known c h ∙ sym h
policy_of-ready c (inr h) = policy_of-ignored c h ∙ sym h

unknown : text_eq (codes "insecure-ignore") (codes "known-hosts") ≡ false
unfolding text_eq
unknown = refl

same : text_eq (codes "insecure-ignore") (codes "insecure-ignore") ≡ true
unfolding text_eq
same = refl

check_policy-ready : (c : Config) → IsPolicy c.ssh → check_policy c ≡ ok tt
unfolding check_policy
check_policy-ready c (inl (h, file)) = ground (
  arith,
  policy_of-known c h,
  text_eq_iff (policy_of c) (codes "known-hosts"),
  text_eq_iff (policy_of c) (codes "insecure-ignore"),
)
check_policy-ready c (inr h) = let e = policy_of-ignored c h in rw (e, unknown, same) refl

not_blank : (s : Text) → 16 ≤ byte_len s → is_empty s ≡ false
unfolding byte_len
not_blank [] h = absurd (ground arith)
not_blank (x ∷ s) h = refl

some_password :
    (a : AuthConfig)
    → IsGiven a.password ⊎ IsGiven a.password_hash
    → (is_empty a.password && is_empty a.password_hash) ≡ false
some_password a h = ground arith

check_required-ready : (c : Config) → IsReady c → check_required c ≡ ok tt
unfolding check_required
check_required-ready c r =
    let long : ltb (byte_len c.server.session_secret) 16 ≡ false = ground (arith, r.secret) in
    rw
      (
        r.listen,
        r.username,
        some_password c.auth r.password,
        not_blank c.server.session_secret r.secret,
        long,
      )
      refl

check_credentials-ready : (c : CredentialsConfig) → IsStorage c → check_credentials c ≡ ok c
unfolding check_credentials
check_credentials-ready c h = ground arith

fill_ssh-ready : (c : Config) → IsReady c → fill_ssh (policy_of c) c.ssh ≡ c.ssh
unfolding fill_ssh
fill_ssh-ready c r =
    rw
      (
        policy_of-ready c r.policy,
        positive_or_same _ _ r.max_sessions,
        positive_or_same _ _ r.ssh_connect,
        positive_or_same _ _ r.ssh_idle,
      )
      refl

fill_tunnel-ready : (c : Config) → IsReady c → fill_tunnel c.tunnel ≡ c.tunnel
unfolding fill_tunnel
fill_tunnel-ready c r =
    rw
      (
        positive_or_same _ _ r.tunnel_connect,
        positive_or_same _ _ r.tunnel_write,
        positive_or_same _ _ r.tunnel_idle,
        positive_or_same _ _ r.max_connections,
      )
      refl

fill_auth-ready : (c : Config) → IsReady c → fill_auth c.auth ≡ c.auth
unfolding fill_auth
fill_auth-ready c r = rw (positive_or_same _ _ r.session_ttl) refl

not_nil : {A : Type 0} (xs : List A) → xs ≢ [] → is_empty xs ≡ false
not_nil [] h = absurd (h refl)
not_nil (x ∷ xs) h = refl

-- `Validate` accepts every configuration that is ready, and changes nothing in it.
pub validate_ready : (c : Config) → IsReady c → validate c ≡ ok c
unfolding validate
validate_ready c r =
    rw
      (
        check_required-ready c r,
        check_policy-ready c r.policy,
        not_nil c.tunnel.allowed_ports r.some_port,
        (check_ports_iff [] c.tunnel.allowed_ports).1 (r.ports, r.distinct, AreNew-nil _),
        check_credentials-ready c.credentials r.storage,
        fill_auth-ready c r,
        fill_ssh-ready c r,
        fill_tunnel-ready c r,
      )
      refl
