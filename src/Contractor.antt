-- ===== src/Contractor.antt =====
-- The parts of Contractor/.
pub mod GeometryCompressor
pub mod Contractor
