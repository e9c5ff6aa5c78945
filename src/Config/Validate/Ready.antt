-- ===== src/Config/Validate/Ready.antt =====
-- `Validate` accepts a configuration only to make it ready, and leaves a ready one alone.
use go_webssh.Base.{
  ℕ, ◌≤◌, ◌≡◌, refl, ◌≢◌, ◌⊎◌, inl, inr, true, false, List, [], ◌∷◌, ◌++◌, ok, arith, is_empty, any,
  All, Bool-cases, Result-cases,
}
use go_webssh.Int.{ℤ, pos, ◌≤ℤ◌, InRange}
use go_webssh.Text.{Text, codes, trim_space, byte_len, is_space}
use go_webssh.Text.Laws.{text_eq_iff}
use go_webssh.Text.Blank.{trim_space-ink, has_ink-append}
use go_webssh.Config.Types.{Config, CredentialsConfig, SshConfig}
use go_webssh.Config.Validate.{
  positive_or, check_required, policy_of, check_policy, check_ports, is_key_hex, check_credentials,
  fill_auth, fill_ssh, fill_tunnel, validate,
}
use go_webssh.Config.Validate.Laws.{AreDistinct, check_ports_iff}

abbrev pub IsPositive : ℤ → Type 0
IsPositive x = pos 1 ≤ℤ x

abbrev pub IsGiven : Text → Type 0
IsGiven s = is_empty s ≡ false

-- A host key policy that the SSH client knows, with what it needs.
abbrev pub IsPolicy : SshConfig → Type 0
IsPolicy s =
    ((s.host_key_policy ≡ codes "known-hosts") × IsGiven (trim_space s.known_hosts_file))
    ⊎ (s.host_key_policy ≡ codes "insecure-ignore")

-- Credential storage is off, or has a database, a key file, and no key or one of 32 bytes.
abbrev pub IsStorage : CredentialsConfig → Type 0
IsStorage c =
    (c.enabled ≡ false)
    ⊎ (IsGiven (trim_space c.db_file)
        × IsGiven (trim_space c.key_file)
        × ((c.key_hex ≡ []) ⊎ (is_key_hex c.key_hex ≡ true)))

pub record IsReady (c : Config) : Type 0 where
  pub listen : IsGiven c.server.listen
  pub username : IsGiven c.auth.username
  pub password : IsGiven c.auth.password ⊎ IsGiven c.auth.password_hash
  pub secret : 16 ≤ byte_len c.server.session_secret
  pub policy : IsPolicy c.ssh
  pub session_ttl : IsPositive c.auth.session_ttl
  pub max_sessions : IsPositive c.ssh.max_sessions
  pub ssh_connect : IsPositive c.ssh.connect_timeout
  pub ssh_idle : IsPositive c.ssh.idle_timeout
  pub tunnel_connect : IsPositive c.tunnel.connect_timeout
  pub tunnel_write : IsPositive c.tunnel.write_timeout
  pub tunnel_idle : IsPositive c.tunnel.idle_timeout
  pub max_connections : IsPositive c.tunnel.max_connections
  pub some_port : c.tunnel.allowed_ports ≢ []
  pub ports : All (InRange 1 65535) c.tunnel.allowed_ports
  pub distinct : AreDistinct c.tunnel.allowed_ports
  pub storage : IsStorage c.credentials

check_required_sound :
    (c : Config)
    → check_required c ≡ ok tt
    → IsGiven c.server.listen
      × IsGiven c.auth.username
      × (IsGiven c.auth.password ⊎ IsGiven c.auth.password_hash)
      × (16 ≤ byte_len c.server.session_secret)
unfolding check_required
check_required_sound c h = ground arith

check_policy_sound : (c : Config) → check_policy c ≡ ok tt → IsPolicy (fill_ssh (policy_of c) c.ssh)
unfolding check_policy fill_ssh
check_policy_sound c h = ground (
  arith,
  text_eq_iff (policy_of c) (codes "known-hosts"),
  text_eq_iff (policy_of c) (codes "insecure-ignore"),
)

is_empty-nil : (s : Text) → is_empty s ≡ true → s ≡ []
is_empty-nil [] h = refl
is_empty-nil (x ∷ s) h = absurd (ground arith)

key-IsGiven : (db : Text) → IsGiven (trim_space (db ++ codes ".key"))
unfolding any
key-IsGiven db = trim_space-ink _ (has_ink-append db (codes ".key") (unfold is_space in refl))

check_storage :
    (c out : CredentialsConfig)
    → c.enabled ≡ true
    → IsGiven (trim_space c.db_file)
    → check_credentials c ≡ ok out
    → IsGiven (trim_space out.db_file)
      × IsGiven (trim_space out.key_file)
      × ((out.key_hex ≡ []) ⊎ (is_key_hex out.key_hex ≡ true))
unfolding check_credentials
check_storage c out on file h = elim (Bool-cases (is_empty (trim_space c.key_file))) [
  | inl blank ↦ ground (arith, key-IsGiven c.db_file, is_empty-nil c.key_hex)
  | inr given ↦ ground (arith, is_empty-nil c.key_hex)
]

check_credentials_sound : (c out : CredentialsConfig) → check_credentials c ≡ ok out → IsStorage out
unfolding check_credentials
check_credentials_sound c out h = elim (Bool-cases c.enabled) [
  | inr off ↦ inl (ground arith)
  | inl on ↦ elim (Bool-cases (is_empty (trim_space c.db_file))) [
    | inl no_file ↦ absurd (ground arith)
    | inr file ↦ inr (check_storage c out on file h)
  ]
]

positive_or-IsPositive : (x : ℤ) (n : ℕ) → 1 ≤ n → IsPositive (positive_or x (pos n))
positive_or-IsPositive x n h = ground arith

not_empty-ne : {A : Type 0} (xs : List A) → is_empty xs ≡ false → xs ≢ []
not_empty-ne [] h = absurd (ground arith)
not_empty-ne (x ∷ xs) h = λ e. ground arith

-- What `Validate` leaves behind, where the credential section is the checked one.
abbrev pub filled : Config → CredentialsConfig → Config
filled c credentials = record c {
  auth = fill_auth c.auth;
  ssh = fill_ssh (policy_of c) c.ssh;
  tunnel = fill_tunnel c.tunnel;
  credentials = credentials;
}

-- Every check of a successful validation has succeeded.
validate_parts :
    (c out : Config)
    → validate c ≡ ok out
    → (credentials : CredentialsConfig) × (check_required c ≡ ok tt)
      × (check_policy c ≡ ok tt)
      × (is_empty c.tunnel.allowed_ports ≡ false)
      × (check_ports [] c.tunnel.allowed_ports ≡ ok tt)
      × (check_credentials c.credentials ≡ ok credentials)
      × (out ≡ filled c credentials)
unfolding validate
validate_parts c out h = elim (Result-cases (check_required c)) [
  | inr (e, fails) ↦ absurd (ground arith)
  | inl (u, required) ↦ elim (Result-cases (check_policy c)) [
    | inr (e, fails) ↦ absurd (ground arith)
    | inl (v, policy) ↦ elim (Result-cases (check_ports [] c.tunnel.allowed_ports)) [
      | inr (e, fails) ↦ absurd (ground arith)
      | inl (w, ports) ↦ elim (Result-cases (check_credentials c.credentials)) [
        | inr (e, fails) ↦ absurd (ground arith)
        | inl (credentials, storage) ↦
            (credentials, required, policy, ground arith, ports, storage, ground arith)
      ]
    ]
  ]
]

-- The configuration that `Validate` leaves behind is ready: a policy that is known, positive limits
-- and times, allowed ports in range and distinct, a long enough secret, and usable key material.
pub validate-IsReady : (c out : Config) → validate c ≡ ok out → IsReady out
unfolding fill_auth fill_ssh fill_tunnel
validate-IsReady c out h =
    let (credentials, required, policy, some_port, ports, storage, e) = validate_parts c out h in
    let (listen, username, password, secret) = check_required_sound c required in
    let (ranges, distinct, fresh) = (check_ports_iff [] c.tunnel.allowed_ports).0 ports in
    rw e (record {
      listen = listen;
      username = username;
      password = password;
      secret = secret;
      policy = check_policy_sound c policy;
      session_ttl = positive_or-IsPositive c.auth.session_ttl _ (omega arith);
      max_sessions = positive_or-IsPositive c.ssh.max_sessions _ (omega arith);
      ssh_connect = positive_or-IsPositive c.ssh.connect_timeout _ (omega arith);
      ssh_idle = positive_or-IsPositive c.ssh.idle_timeout _ (omega arith);
      tunnel_connect = positive_or-IsPositive c.tunnel.connect_timeout _ (omega arith);
      tunnel_write = positive_or-IsPositive c.tunnel.write_timeout _ (omega arith);
      tunnel_idle = positive_or-IsPositive c.tunnel.idle_timeout _ (omega arith);
      max_connections = positive_or-IsPositive c.tunnel.max_connections _ (omega arith);
      some_port = not_empty-ne c.tunnel.allowed_ports some_port;
      ports = ranges;
      distinct = distinct;
      storage = check_credentials_sound c.credentials credentials storage;
    })
