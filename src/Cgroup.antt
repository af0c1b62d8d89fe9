-- ===== src/Cgroup.antt =====
-- cgroup.go: events, freezing and killing, deletion, paths, and the device and process limits.
pub mod Events
pub mod Kill
pub mod Killed
pub mod Spared
pub mod Ends
pub mod Free
pub mod Freezer
pub mod Delete
pub mod Deleted
pub mod SystemdPath
pub mod Devices
pub mod Configure
