-- ===== src/Modules.antt =====
-- crates/plat-modules: module paths, registration, and the dependency graph.
pub mod Sets
pub mod Paths
pub mod Resolver
pub mod Names
pub mod Registration
pub mod Discovery
pub mod Graph
mod Examples
