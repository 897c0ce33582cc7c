-- ===== src/Server.antt =====
-- The parts of Server/.
pub mod RequestParser
pub mod InternalDataFacade
