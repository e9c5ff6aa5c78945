-- ===== src/Cli/Run.antt =====
-- `Run` of internal/cli/cli.go up to its connection: what a session asks the server for. Files of keys, the window and the
-- prompt are what the platform returns.
pub mod Laws
mod Tests
use go_webssh.Base.{
  ℕ, ◌*◌, Bool, true, false, not, ◌&&◌, ◌||◌, Option, none, some, List, [], ◌∷◌, ◌++◌, Result, ok,
  err, ◌>>=◌, ◌>>◌, fail_if, or_fail, if◌then◌else◌, is_empty, ltb,
}
use go_webssh.Int.{ℤ, pos, eq_ℤ, ltb_ℤ}
use go_webssh.Text.{Text, codes, text_eq, trim_space, has_prefix, drop_like, byte_len}
use go_webssh.Ws.Protocol.{ConnectData}
use go_webssh.Ws.Connect.{or_else}
use go_webssh.Cli.Saved.{SavedCredential, SavedError, Api, fetch_saved}

-- `Options`, as far as the request depends on them.
pub record Options : Type 0 where
  pub host : Text
  pub port : ℤ
  pub ssh_user : Text
  pub term : Text
  pub passphrase : Text
  pub saved : Text
  pub identity_file : Text
  pub use_tmux : Bool
  pub tmux_session : Text

-- The home directory, the files that can be read, `filepath.Join`, the terminal of the environment, the keys that
-- want a passphrase, the answer of the prompt, and the window.
pub record Platform : Type 0 where
  pub home : Option Text
  pub read_file : Text → Option Text
  pub join : Text → Text → Text
  pub term_env : Text
  pub wants_passphrase : Text → Bool
  pub prompt : Option Text
  pub window : Option (ℤ × ℤ)

pub data RunError : Type 0 where
  saved_failed : SavedError → RunError
  identity_unreadable identity_too_large identity_empty : RunError
  key_required destination_required prompt_failed : RunError

-- `clampSize`
unfoldable pub clamp : ℕ → ℕ → ℤ → ℤ
clamp lo hi n = if ltb_ℤ n (pos lo) then pos lo else if ltb_ℤ (pos hi) n then pos hi else n

unfoldable pub clamp_size : ℤ → ℤ → ℤ × ℤ
unfolding clamp
clamp_size cols rows = (clamp 20 500 cols, clamp 5 200 rows)

-- `maxKeyBytes`
abbrev pub max_key_bytes : ℕ
max_key_bytes = 128 * 1024

-- `expandPath`
unfoldable pub expand_path : Platform → Text → Text
unfolding text_eq has_prefix drop_like
expand_path p path =
    if text_eq path (codes "~") || has_prefix path (codes "~/") || has_prefix path (codes "~\\")
    then (elim p.home [
      | none ↦ path
      | some home ↦
          if text_eq path (codes "~") then home else p.join home (drop_like path (codes "~/"))
    ])
    else path

-- `readIdentityFile`
unfoldable pub read_identity_file : Platform → Text → Result RunError Text
unfolding expand_path trim_space
read_identity_file p path = do
  key ← or_fail (p.read_file (expand_path p path)) identity_unreadable
  fail_if (ltb max_key_bytes (byte_len key)) identity_too_large
  fail_if (is_empty (trim_space key)) identity_empty
  ok key

-- The loop of `readDefaultIdentity`
unfoldable pub first_identity : Platform → Text → List Text → Result RunError Text
first_identity p home [] = err key_required
first_identity p home (name ∷ names) =
    let rest = first_identity p home names in
    elim (p.read_file (p.join (p.join home (codes ".ssh")) name)) [
      | none ↦ rest
      | some key ↦ if is_empty key || ltb max_key_bytes (byte_len key) then rest else ok key
    ]

-- `readDefaultIdentity`
unfoldable pub read_default_identity : Platform → Result RunError Text
unfolding first_identity
read_default_identity p = do
  home ← or_fail p.home key_required
  first_identity p home (codes "id_ed25519" ∷ codes "id_ecdsa" ∷ codes "id_rsa" ∷ [])

-- What is known of the target: by the options, and then by the saved credential.
pub record Target : Type 0 where
  pub host : Text
  pub user : Text
  pub port : ℤ
  pub term : Text
  pub key : Text
  pub passphrase : Text
  pub use_tmux : Bool

unfoldable pub from_options : Options → Target
unfolding trim_space
from_options opt = record {
  host = trim_space opt.host;
  user = trim_space opt.ssh_user;
  port = opt.port;
  term = trim_space opt.term;
  key = [];
  passphrase = opt.passphrase;
  use_tmux = opt.use_tmux;
}

unfoldable pub with_saved : Bool → SavedCredential → Target → Target
with_saved use_tmux saved t = record {
  host = or_else t.host saved.host;
  user = or_else t.user saved.username;
  port = if eq_ℤ t.port (pos 0) then saved.port else t.port;
  term = or_else t.term saved.term;
  key = saved.private_key;
  passphrase = or_else t.passphrase saved.passphrase;
  use_tmux = if use_tmux then t.use_tmux else saved.use_tmux || saved.use_herdr;
}

-- The target with the credential that is named, if one is.
unfoldable pub find_target : Api → Options → Result RunError Target
unfolding fetch_saved from_options with_saved
find_target api opt =
    if is_empty opt.saved then ok (from_options opt) else elim (fetch_saved api opt.saved) [
      | err e ↦ err (saved_failed e)
      | ok saved ↦ ok (with_saved opt.use_tmux saved (from_options opt))
    ]

-- The key: of the file that is named, of the credential, or of the home directory.
unfoldable pub find_key : Platform → Options → Text → Result RunError Text
unfolding read_identity_file read_default_identity
find_key p opt known =
    let named =
      if is_empty opt.identity_file then ok known else read_identity_file p opt.identity_file in
    named >>= λ key. if is_empty key then read_default_identity p else ok key

-- The passphrase, which is asked for where the key wants one and none is given.
unfoldable pub find_passphrase : Platform → Text → Text → Result RunError Text
find_passphrase p key given =
    if is_empty given && p.wants_passphrase key then or_fail p.prompt prompt_failed else ok given

unfoldable pub window_of : Platform → ℤ × ℤ
unfolding clamp_size
window_of p = elim p.window [
  | none ↦ clamp_size (pos 80) (pos 24)
  | some (cols, rows) ↦ clamp_size cols rows
]

-- `ws.ConnectData` as `Run` fills it in.
unfoldable pub connect_data : Platform → Options → Target → Text → Text → ConnectData
unfolding window_of trim_space
connect_data p opt t key passphrase = record {
  host = t.host;
  port = if eq_ℤ t.port (pos 0) then pos 22 else t.port;
  username = t.user;
  private_key = key;
  passphrase = passphrase;
  term = or_else (or_else t.term (trim_space p.term_env)) (codes "xterm-256color");
  cols = (window_of p).0;
  rows = (window_of p).1;
  use_herdr = t.use_tmux;
  legacy_use_tmux = t.use_tmux;
  herdr_session = opt.tmux_session;
  tmux_session = opt.tmux_session;
}

-- `Run`, from the login to the request.
unfoldable pub run_request : Platform → Api → Options → Result RunError ConnectData
unfolding find_target find_key find_passphrase connect_data
run_request p api opt = do
  t ← find_target api opt
  key ← find_key p opt t.key
  fail_if (is_empty t.host || is_empty t.user) destination_required
  passphrase ← find_passphrase p key t.passphrase
  ok (connect_data p opt t key passphrase)
