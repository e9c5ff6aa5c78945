-- ===== src/Ssh/Tests.antt =====
-- Connections on a small platform, and the theorems there.
use go_webssh.Base.{◌≡◌, ◌+◌, refl, true, false, some, [], ◌∷◌, ok, err}
use go_webssh.Int.{pos}
use go_webssh.Text.{codes, trim_space, byte_len, contains, to_lower, text_eq}
use go_webssh.Code.{Code, ApiError}
use go_webssh.Ssh.{
  Ssh, ConnectRequest, Session, opened, closed, a_client, a_session, coded, connect, check_key,
  dial_client, open_shell, probe_herdr, herdr_available, new_shell, start_shell, parse_signer,
  map_dial_error, map_private_key_error,
}
use go_webssh.Ssh.Laws.{connect-IsBalanced, IsBalanced}

-- A server whose shell starts only for the second client.
abbrev sample_ssh : Ssh
sample_ssh = record {
  parse_key = λ k. err (record { passphrase_missing = true; message = [] });
  parse_key_with_passphrase = λ k p. ok 2;
  dial = λ addr user signer wait. ok 3;
  new_session = λ n c. some (4 + n);
  run = λ s command. true;
  stdin_pipe = λ s. true;
  stdout_pipe = λ s. true;
  stderr_pipe = λ s. true;
  request_pty = λ s term rows cols. true;
  shell = λ s. true;
  write = λ s text. false;
}

abbrev sample_request : ConnectRequest
sample_request = record {
  host = codes "h";
  port = pos 22;
  username = codes "u";
  private_key = codes "k";
  passphrase = codes "p";
  term = [];
  cols = pos 80;
  rows = pos 24;
  use_herdr = false;
  herdr_session = [];
}

abbrev attaching : ConnectRequest
attaching = record sample_request { use_herdr = true; herdr_session = codes "s" }

abbrev sample_session : Session
sample_session = record { client = 3; session = 5; herdr_active = false; herdr_session = [] }

abbrev failure : ApiError
failure = coded Code.ssh_session_failed "failed to start recoverable Herdr session"

connects :
    connect sample_ssh sample_request (pos 0)
    ≡ (ok sample_session, opened (a_client 3) ∷ opened (a_session 5) ∷ [])
unfolding connect check_key dial_client open_shell probe_herdr herdr_available new_shell start_shell
    parse_signer trim_space byte_len
connects = refl

fails : connect sample_ssh attaching (pos 0) ≡ (
  err failure,
  opened (a_client 3)
      ∷ opened (a_session 4)
      ∷ closed (a_session 4)
      ∷ opened (a_session 5)
      ∷ closed (a_session 5)
      ∷ closed (a_client 3)
      ∷ [],
)
unfolding connect check_key dial_client open_shell probe_herdr herdr_available new_shell start_shell
    parse_signer trim_space byte_len
fails = refl

-- What the texts of errors become.
runs : Unit {0}
unfolding map_dial_error map_private_key_error contains to_lower text_eq
runs =
    let timeout : map_dial_error (codes "dial tcp: I/O Timeout")
        ≡ coded Code.ssh_connect_timeout "SSH connection timed out" =
      refl in
    let wrong : map_private_key_error (codes "x509: decryption password incorrect")
        ≡ coded Code.private_key_passphrase_invalid "private key passphrase is incorrect" =
      refl in
    tt

connect-IsBalanced_example : IsBalanced [] (connect sample_ssh attaching (pos 0))
connect-IsBalanced_example = connect-IsBalanced sample_ssh attaching (pos 0)
