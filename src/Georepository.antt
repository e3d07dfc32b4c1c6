-- ===== src/Georepository.antt =====
-- The client of the Georepository API and its response cache (geodetic_engine/georepository).
pub mod Pages
pub mod Fetch
pub mod Links
pub mod Cache
pub mod Versions
pub mod Freshness
