-- ===== src/Util.antt =====
-- The utilities of ella-engine/src/util.
pub mod WorkQueue
