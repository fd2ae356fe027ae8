-- ===== src/Ord.antt =====
-- Rust's trait `Ord`, with the laws that it documents: what `BTreeMap`, `max` and `==` rely on.
mod Laws
pub mod Lex
pub mod Max
pub use Laws.*
