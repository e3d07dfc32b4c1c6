-- ===== src/ProjDb.antt =====
-- The writer of an enriched proj.db (geodetic_engine/projdb).
pub mod Tables
pub mod Columns
pub mod Writer
pub mod Identifiers
pub mod References
pub mod Publication
pub mod Refreshing
pub mod Overrides
pub mod Preferences
pub mod Aliases
pub mod Usages
pub mod Rows
pub mod Objects
