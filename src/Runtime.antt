-- ===== src/Runtime.antt =====
-- crates/plat-runtime: the collections that generated code calls.
pub mod Buffer
pub mod Shift
pub mod Array
pub mod Set
pub mod Dict
