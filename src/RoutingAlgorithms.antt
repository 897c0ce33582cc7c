-- ===== src/RoutingAlgorithms.antt =====
-- The parts of RoutingAlgorithms/.
pub mod BasicRoutingInterface
