-- ===== src/Lock.antt =====
-- utils/lock/: the locks on futexes, the guards of a scope, and counted references.
pub mod Threads
pub mod Simple
pub mod Brute
pub mod Scope
pub mod Refs
mod RefTests
mod Tests
mod BruteTests
