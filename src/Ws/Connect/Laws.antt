-- ===== src/Ws/Connect/Laws.antt =====
-- What `handleConnect` lets through.
use go_webssh.Base.{
  ℕ, ◌≤◌, ◌≡◌, refl, ◌↔◌, ◌⊎◌, true, false, [], ◌∷◌, ◌++◌, ok, arith, is_empty, All,
}
use go_webssh.Int.{InRange}
use go_webssh.Text.{Text, codes, trim_space, byte_len, all_runes}
use go_webssh.Ws.Protocol.{ConnectData}
use go_webssh.Ws.Connect.{
  is_name_rune, or_else, trimmed, check_target, check_secrets, filled, check_terminal, prepare,
}

abbrev pub InClosed : ℕ → ℕ → ℕ → Type 0
InClosed lo hi c = (lo ≤ c) × (c ≤ hi)

-- A letter, a digit, a dash or an underscore.
abbrev pub IsNameRune : ℕ → Type 0
IsNameRune c =
    (c ≡ b'-') ⊎ (c ≡ b'_') ⊎ InClosed b'a' b'z' c ⊎ InClosed b'A' b'Z' c ⊎ InClosed b'0' b'9' c

is_name_rune_iff : (c : ℕ) → (is_name_rune c ≡ true) ↔ IsNameRune c
unfolding is_name_rune
is_name_rune_iff c = (λ h. ground arith, λ h. ground arith)

All-name_runes : (s : Text) → (all_runes is_name_rune s ≡ true) → All IsNameRune s
unfolding all_runes
All-name_runes [] h = tt
All-name_runes (c ∷ s) h = ((is_name_rune_iff c).0 (ground arith), All-name_runes s (ground arith))

-- A request that can be dialled: every field within its bounds, and a name that is safe in a command.
pub record IsSound (cd : ConnectData) : Type 0 where
  pub host : (is_empty cd.host ≡ false) × (byte_len cd.host ≤ 253)
  pub port : InRange 1 65535 cd.port
  pub username : (is_empty cd.username ≡ false) × (byte_len cd.username ≤ 128)
  pub key : (is_empty (trim_space cd.private_key) ≡ false) × (byte_len cd.private_key ≤ 131072)
  pub passphrase : byte_len cd.passphrase ≤ 8192
  pub term : (is_empty cd.term ≡ false) × (byte_len cd.term ≤ 64)
  pub session :
      cd.use_herdr ≡ true
      → (is_empty cd.herdr_session ≡ false)
        × (byte_len cd.herdr_session ≤ 64)
        × All IsNameRune cd.herdr_session
  pub rows : InRange 5 200 cd.rows
  pub cols : InRange 20 500 cd.cols

check_target_sound :
    (cd : ConnectData)
    → check_target cd ≡ ok tt
    → ((is_empty cd.host ≡ false) × (byte_len cd.host ≤ 253))
      × InRange 1 65535 cd.port
      × (is_empty cd.username ≡ false)
      × (byte_len cd.username ≤ 128)
unfolding check_target
check_target_sound cd h = ground arith

check_secrets_sound :
    (cd : ConnectData)
    → check_secrets cd ≡ ok tt
    → ((is_empty (trim_space cd.private_key) ≡ false) × (byte_len cd.private_key ≤ 131072))
      × (byte_len cd.passphrase ≤ 8192)
unfolding check_secrets
check_secrets_sound cd h = ground arith

check_terminal_sound :
    (cd : ConnectData)
    → check_terminal cd ≡ ok tt
    → (byte_len cd.term ≤ 64)
      × (cd.use_herdr ≡ true
          → (byte_len cd.herdr_session ≤ 64) × (all_runes is_name_rune cd.herdr_session ≡ true))
unfolding check_terminal
check_terminal_sound cd h = (ground arith, λ on. ground arith)

or_else-given : (s t : Text) → is_empty t ≡ false → is_empty (or_else s t) ≡ false
or_else-given s t h = ground arith

-- The name that a session gets is not empty.
named-given :
    (fresh : Text) (cd : ConnectData)
    → (filled fresh cd).use_herdr ≡ true
    → is_empty (filled fresh cd).herdr_session ≡ false
unfolding filled
named-given fresh cd on =
    rw on
      (or_else-given (or_else cd.herdr_session cd.tmux_session) (codes "gowebssh-" ++ fresh) refl)

prepare_parts :
    (fresh : Text) (raw out : ConnectData)
    → prepare fresh raw ≡ ok out
    → (check_target (trimmed raw) ≡ ok tt)
      × (check_secrets (trimmed raw) ≡ ok tt)
      × (check_terminal (filled fresh (trimmed raw)) ≡ ok tt)
      × (out ≡ filled fresh (trimmed raw))
unfolding prepare
prepare_parts fresh raw out h = ground arith

-- What handleConnect goes on with has a host, a user and a key that are not empty, every field within
-- its bounds, a window between 5 by 20 and 200 by 500, and, where Herdr is used, a name of letters,
-- digits, dashes and underscores.
pub prepare-IsSound :
    (fresh : Text) (raw out : ConnectData) → prepare fresh raw ≡ ok out → IsSound out
unfolding filled
prepare-IsSound fresh raw out h =
    let (target, secrets, terminal, e) = prepare_parts fresh raw out h in
    let cd = trimmed raw in
    let (host, port, named, name_bound) = check_target_sound cd target in
    let (key, passphrase) = check_secrets_sound cd secrets in
    let (term, session) = check_terminal_sound (filled fresh cd) terminal in
    rw e (record {
      host = host;
      port = port;
      username = (named, name_bound);
      key = key;
      passphrase = passphrase;
      term = (or_else-given cd.term _ refl, term);
      session = λ on. (named-given fresh cd on, (session on).0, All-name_runes _ (session on).1);
      rows = ground arith;
      cols = ground arith;
    })
