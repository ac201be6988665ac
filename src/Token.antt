-- ===== src/Token.antt =====
-- crates/ng-token: who a credential belongs to, and what it may do.
pub mod Match
pub mod Limits
pub mod Cache
pub mod Auth
pub mod Guard
pub mod Table
pub mod Generate
pub mod Admin
pub mod Tests
