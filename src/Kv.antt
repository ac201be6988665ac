-- ===== src/Kv.antt =====
-- crates/ng-kv: named stores of JSON values behind the permission checks.
pub mod Table
pub mod Auth
pub mod Rpc
mod Tests
