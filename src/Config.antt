-- ===== src/Config.antt =====
-- What the configuration files hold, and where a host gets its rodeo-cli from.
pub mod Value
pub mod Entries
pub mod Substring
pub mod Source
pub mod Merge
pub mod Precedence
pub mod Paths
pub mod Validation
pub mod Validated
