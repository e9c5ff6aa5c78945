-- ===== src/Code.antt =====
-- The error codes that the server sends to its clients, and an error as it is sent.
use go_webssh.Base.{String}

pub data Code : Type 0 where
  invalid_port invalid_host network_denied : Code
  host_key_untrusted host_key_changed : Code
  auth_required auth_failed bad_request : Code
  tunnel_disabled ws_origin_denied tunnel_limit_exceeded : Code
  tunnel_port_denied tunnel_connect_failed session_limit_exceeded : Code
  private_key_required private_key_too_large : Code
  private_key_passphrase_required private_key_passphrase_invalid private_key_invalid : Code
  ssh_auth_failed ssh_connect_timeout ssh_connect_failed ssh_session_failed : Code
  credential_storage_disabled vault_decrypt_failed vault_migrate_failed : Code
  not_found internal_error themes_load_failed : Code

-- The code and the message of a `PolicyError`, a `CodedError` or a `HostKeyError`.
pub record ApiError : Type 0 where
  pub code : Code
  pub message : String
