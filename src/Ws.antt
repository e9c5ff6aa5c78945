-- ===== src/Ws.antt =====
-- internal/ws: the terminal sessions and the TCP tunnels over a WebSocket.
pub mod Origin
pub mod Limit
pub mod Protocol
pub mod Connect
pub mod Session
pub mod Tunnel
pub mod Relay
mod Tests
