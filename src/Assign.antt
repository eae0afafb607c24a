-- ===== src/Assign.antt =====
-- The clustering pass, assign_clusters.cc, a module for each of its steps and for each property.
pub mod Cluster
pub mod Store
pub mod Deadness
pub mod Setup
pub mod Made
pub mod Contract
pub mod Invariant
pub mod Moves
pub mod Convex
pub mod StaticInputs
pub mod Extends
pub mod Shadows
pub mod Tag
pub mod Tagged
pub mod Numbers
pub mod Outcome
pub mod Terminates
pub mod Predicates
pub mod Contracted
pub mod Ends
