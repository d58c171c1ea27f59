-- ===== src/Conn.antt =====
-- conn/ and crypto/: connections to peers, what they read and write, and who handles it.
pub mod Ssl
pub mod Handler
pub mod Peers
pub mod Auth
pub mod Hasher
pub mod Keys
mod KeyTests
mod Tests
