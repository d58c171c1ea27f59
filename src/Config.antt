-- ===== src/Config.antt =====
-- config.h: `ImmutableConfig`, a text of options parsed into one block of bytes.
pub mod Parser
pub mod Reader
mod Tests
