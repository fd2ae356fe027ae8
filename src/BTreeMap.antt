-- ===== src/BTreeMap.antt =====
-- `std::collections::BTreeMap`, as the program uses it: the entries in ascending order of key.
mod Defs
mod Lookup
pub mod Sorted
pub mod Removal
pub mod Extensional
unfoldable pub use Defs.{BTreeMap, get, contains_key, insert, remove, keys, values}
pub use Lookup.*
