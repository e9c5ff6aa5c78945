-- ===== src/Ws/Protocol.antt =====
-- The messages of internal/ws/protocol.go. A payload is here the value that JSON makes of it; a
-- payload that does not decode is none.
use go_webssh.Base.{ℕ, Bool, Option, String}
use go_webssh.Int.{ℤ}
use go_webssh.Text.{Text}
use go_webssh.Code.{ApiError}

pub record ConnectData : Type 0 where
  pub host : Text
  pub port : ℤ
  pub username : Text
  pub private_key : Text
  pub passphrase : Text
  pub term : Text
  pub cols : ℤ
  pub rows : ℤ
  pub use_herdr : Bool
  pub legacy_use_tmux : Bool
  pub herdr_session : Text
  pub tmux_session : Text

pub record TunnelConnectData : Type 0 where
  pub host : Text
  pub port : ℤ

pub record ConnectedData : Type 0 where
  pub session_id : Text
  pub host : Text
  pub port : ℤ
  pub username : Text
  pub herdr_session : Text
  pub tmux_session : Text

pub record ResizeData : Type 0 where
  pub cols : ℤ
  pub rows : ℤ

-- What a session sends.
pub data Reply : Type 0 where
  error_reply : ApiError → Reply
  connected_reply : ConnectedData → Reply
  tunnel_connected_reply : TunnelConnectData → Reply
  closed_reply : String → Option ℤ → Reply
  pong_reply : ℕ → Reply
