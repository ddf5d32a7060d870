-- ===== src/Search.antt =====
-- internal/search: the federated search and the cached lookups.
pub mod Items
pub mod Dedup
pub mod Paging
pub mod Provider
pub mod Lookup
mod Tests
