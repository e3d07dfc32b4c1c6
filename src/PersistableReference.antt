-- ===== src/PersistableReference.antt =====
-- The persistableReference payloads (geodetic_engine/persistablereference).
pub mod EsriWkt
