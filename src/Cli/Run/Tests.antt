-- ===== src/Cli/Run/Tests.antt =====
-- A session with a saved credential and a key of its own, and the theorems there.
use go_webssh.Base.{◌≡◌, refl, true, false, none, some, [], ◌∷◌, ok, err, if◌then◌else◌}
use go_webssh.Int.{pos}
use go_webssh.Text.{codes, text_eq, equal_fold, trim_space, byte_len, has_prefix, to_lower}
use go_webssh.Ws.Protocol.{ConnectData}
use go_webssh.Cli.Saved.{Api, SavedCredential, fetch_saved, content_of, match_saved, scan, is_exact}
use go_webssh.Cli.Run.{
  Options, Platform, run_request, connect_data, window_of, clamp_size, clamp, find_target,
  from_options, with_saved, find_key, find_passphrase, read_identity_file, read_default_identity,
  first_identity, expand_path, destination_required,
}
use go_webssh.Cli.Run.Laws.{run_request-passphrase}

abbrev saved : SavedCredential
saved = record {
  host = codes "db";
  port = pos 2200;
  username = codes "me";
  private_key = codes "K1";
  passphrase = codes "P1";
  term = [];
  use_tmux = false;
  use_herdr = true;
}

abbrev api : Api
api = record {
  casing = record { equal_fold = equal_fold; to_lower = to_lower };
  list_credentials =
      some (record {
        status = 200;
        content = some (record { id = codes "a"; name = codes "Db" } ∷ []);
      });
  get_credential = λ id. some (record { status = 200; content = some saved });
}

abbrev platform : Platform
platform = record {
  home = some (codes "/h");
  read_file = λ path. some (codes "K2");
  join = λ dir name. name;
  term_env = [];
  wants_passphrase = λ key. false;
  prompt = none;
  window = some (pos 9, pos 999);
}

abbrev options : Options
options = record {
  host = [];
  port = pos 0;
  ssh_user = [];
  term = [];
  passphrase = [];
  saved = codes "db";
  identity_file = codes "key";
  use_tmux = false;
  tmux_session = [];
}

abbrev request : ConnectData
request = record {
  host = codes "db";
  port = pos 2200;
  username = codes "me";
  private_key = codes "K2";
  passphrase = codes "P1";
  term = codes "xterm-256color";
  cols = pos 20;
  rows = pos 200;
  use_herdr = true;
  legacy_use_tmux = true;
  herdr_session = [];
  tmux_session = [];
}

fetch_runs : fetch_saved api (codes "db") ≡ ok saved
unfolding fetch_saved content_of match_saved scan is_exact text_eq equal_fold trim_space
fetch_runs = refl

request_runs : run_request platform api options ≡ ok request
unfolding run_request connect_data window_of clamp_size clamp find_target from_options with_saved
    find_key find_passphrase read_identity_file expand_path fetch_saved content_of match_saved scan
    is_exact text_eq equal_fold trim_space byte_len has_prefix
request_runs = refl

run_request-passphrase_example :
    (read_identity_file platform options.identity_file ≡ ok request.private_key)
    × (request.passphrase ≡ saved.passphrase)
run_request-passphrase_example =
    run_request-passphrase platform api options request saved request_runs refl refl refl fetch_runs
      refl

default_runs :
    run_request
      (record platform {
        read_file = λ path. if text_eq path (codes "id_rsa") then some (codes "K3") else none;
      })
      api
      (record options { saved = []; identity_file = [] })
    ≡ err destination_required
unfolding run_request find_target from_options find_key read_default_identity first_identity
    trim_space text_eq byte_len
default_runs = refl
