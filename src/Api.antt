-- ===== src/Api.antt =====
-- The parts of internal/api that are modelled.
pub mod Range
