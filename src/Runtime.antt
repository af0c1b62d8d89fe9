-- ===== src/Runtime.antt =====
-- runtime.go: the checks before `Create`, the life cycle, and the listing of containers.
pub mod Check
pub mod Lifecycle
pub mod Started
pub mod Deletes
pub mod Setup
pub mod Quiet
pub mod Spared
pub mod Ends
pub mod Free
