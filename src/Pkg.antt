-- ===== src/Pkg.antt =====
-- The packages under pkg/ that have no state.
pub mod Strings
pub mod Names
pub mod Ref
pub mod Proxy
pub mod Finalizers
pub mod Condition
pub mod Owners
pub mod Settings
pub mod Indexer
