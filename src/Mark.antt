-- ===== src/Mark.antt =====
-- The marking pass, mark_for_clustering.cc.
pub mod Access
pub mod Types
pub mod Confirm
pub mod Statics
pub mod Arguments
pub mod Pass
pub mod Marked
pub mod Disabled
pub mod Handled
