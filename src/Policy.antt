-- ===== src/Policy.antt =====
-- What an action may do, and which devices are trusted: crates/capability-policy,
-- crates/enterprise-permission-core and crates/device-pairing-core.
pub mod Permission
pub mod Capability
pub mod DeviceTrust
mod Tests
mod DeviceTests
