-- ===== src/Security.antt =====
-- internal/security: the network policy and the host key policy.
pub mod Policy
pub mod HostKey
