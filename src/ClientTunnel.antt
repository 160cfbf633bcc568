-- ===== src/ClientTunnel.antt =====
-- internal/clienttunnel: one local tunnel (`Tunnel`), the registry of the tunnels (`Registry`), and
-- the WebSocket read as a stream of bytes (`Stream`).
pub mod Tunnel
pub mod Order
pub mod Registry
pub mod Stream
pub mod Dial
pub mod Reverse
