-- ===== src/BundleBuilder/Dsl.antt =====
-- bundle_builder_x/constraints_dsl.py: the language of the charms' constraints.
pub mod Syntax
pub mod Token
pub mod Errors
pub mod Parser
pub mod Types
pub mod Whole
mod Samples
