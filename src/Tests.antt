-- ===== src/Tests.antt =====
-- Runs of the definitions at concrete inputs, and the theorems applied to them.
pub mod Detector
pub mod Clusters
pub mod Passes
pub mod Runtime
pub mod Sinking
pub mod Encapsulation
pub mod Rewriting
pub mod Translation
pub mod Unpacking
