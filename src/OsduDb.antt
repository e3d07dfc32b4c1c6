-- ===== src/OsduDb.antt =====
-- The build from an OSDU catalogue, as far as it records the ids of the records
-- (geodetic_engine/osdudb).
pub mod Stating
pub mod Referring
pub mod Annotating
pub mod Staging
pub mod Writing
pub mod Catalogue
pub mod Collecting
