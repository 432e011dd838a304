-- ===== src/Domain.antt =====
-- The descriptors and action records that conversation events carry: crates/entity-core,
-- crates/artifact-core, crates/surface-core, crates/asset-core and crates/action-core.
pub mod Descriptors
pub mod Action
