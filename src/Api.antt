-- ===== src/Api.antt =====
-- The parts of api/ that decide something by themselves.
pub mod Near
