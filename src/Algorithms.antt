-- ===== src/Algorithms.antt =====
-- The algorithms of Algorithms/.
pub mod PolylineCompressor
