-- ===== src/Cloud.antt =====
-- Hosts in a cloud: the catalog of sizes.
pub mod Table
pub mod Catalog
pub mod Resolving
