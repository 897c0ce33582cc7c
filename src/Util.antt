-- ===== src/Util.antt =====
-- The helpers of Util/.
pub mod StringUtil
