-- ===== src/Ssh/Primitives.antt =====
-- The types of internal/sshclient/client.go, and what it calls of golang.org/x/crypto/ssh. Signers,
-- clients and sessions of that package are handles.
use go_webssh.Base.{ℕ, Bool, Option, List, Result}
use go_webssh.Int.{ℤ}
use go_webssh.Text.{Text}
use go_webssh.Code.{ApiError}

abbrev pub Handle : Type 0
Handle = ℕ

pub record ConnectRequest : Type 0 where
  pub host : Text
  pub port : ℤ
  pub username : Text
  pub private_key : Text
  pub passphrase : Text
  pub term : Text
  pub cols : ℤ
  pub rows : ℤ
  pub use_herdr : Bool
  pub herdr_session : Text

-- The pipes are those of the session.
pub record Session : Type 0 where
  pub client : Handle
  pub session : Handle
  pub herdr_active : Bool
  pub herdr_session : Text

-- What has to be closed.
pub data Resource : Type 0 where
  a_client a_session : Handle → Resource

-- What is opened and closed, in order.
pub data SshEvent : Type 0 where
  opened closed : Resource → SshEvent

abbrev pub Outcome : Type 0
Outcome = Result ApiError Session × List SshEvent

-- An error of a key's parser: whether it is a `PassphraseMissingError`, and its text.
pub record KeyError : Type 0 where
  pub passphrase_missing : Bool
  pub message : Text

-- One error of a chain of wrapped errors.
pub data Link : Type 0 where
  host_key : ApiError → Link
  other : Link

-- An error of `ssh.Dial`: the chain from the error inwards, and its text.
pub record DialError : Type 0 where
  pub chain : List Link
  pub message : Text

pub record Ssh : Type 0 where
  pub parse_key : Text → Result KeyError Handle
  pub parse_key_with_passphrase : Text → Text → Result KeyError Handle
  -- address, user, signer, timeout; the host key callback is that of the server
  pub dial : Text → Text → Handle → ℤ → Result DialError Handle
  -- the nth session of a client
  pub new_session : ℕ → Handle → Option Handle
  -- a session runs a command with success
  pub run : Handle → Text → Bool
  pub stdin_pipe : Handle → Bool
  pub stdout_pipe : Handle → Bool
  pub stderr_pipe : Handle → Bool
  pub request_pty : Handle → Text → ℤ → ℤ → Bool
  pub shell : Handle → Bool
  pub write : Handle → Text → Bool
