-- ===== src/Specki.antt =====
-- pkg/specki/specki.go: helpers for OCI specs.
pub mod IdMap
pub mod Env
pub mod Devices
pub mod Json
pub mod NewSpec
