-- ===== src/BundleBuilder.antt =====
-- bundle_builder_x: the builder of bundles of charms.
pub mod Domain
pub mod Dsl
pub mod Overrides
