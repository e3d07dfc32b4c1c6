-- ===== src/Referencing.antt =====
-- Identifiers and axes, below the other packages (geodetic_engine/_referencing).
pub mod OsduId
pub mod Axes
