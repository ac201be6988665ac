-- ===== src/Static.antt =====
-- crates/ng-static/src: static file buckets.
pub mod StdPath
pub mod Validate
pub mod Bucket
pub mod File
pub mod Walk
pub mod Rpc
pub mod Tests
