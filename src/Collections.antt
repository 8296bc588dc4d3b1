-- ===== src/Collections.antt =====
-- The collections of the Rust standard library and of the crate `bimap`, as far as the transport
-- uses them.
pub mod HashMap
pub mod HashSet
pub mod BiMap
