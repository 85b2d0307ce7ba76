-- ===== src/Network.antt =====
-- internal/agent: the watching of the network while a connection is up.
pub mod Monitor
pub mod Native
pub mod Firewall
