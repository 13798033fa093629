-- ===== src/Tcp.antt =====
-- The messages and the connection between client and server: src/tcp.
pub mod Message
pub mod Reader
pub mod Writer
