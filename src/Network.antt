-- ===== src/Network.antt =====
-- src/network.
pub mod WebSocketClient
pub mod WebClient
