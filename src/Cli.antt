-- ===== src/Cli.antt =====
-- The command line client of internal/cli and cmd/webssh-cli: destinations, saved credentials, what a session asks
-- the server for, tunnels and their options, and the resolution of names over HTTPS.
pub mod Destination
pub mod Tunnel
pub mod Doh
pub mod Flags
pub mod Url
pub mod Saved
pub mod Run
pub mod Session
