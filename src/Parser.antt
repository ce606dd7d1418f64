-- ===== src/Parser.antt =====
-- crates/plat-parser/src/lib.rs: the parser.
pub mod State
pub mod Consume
pub mod Types
pub mod Literals
pub mod Blocks
pub mod Primary
pub mod Operators
pub mod Statements
pub mod Declarations
pub mod Classes
pub mod Program
mod Examples
pub mod Total
