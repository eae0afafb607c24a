-- ===== src/Builder.antt =====
-- The translation of a cluster's graph, ngraph_bridge/ngraph_builder.cc.
pub mod Handlers
pub mod Library
pub mod Chain
pub mod Inputs
pub mod Statics
pub mod Elementwise
pub mod Shaped
pub mod Reductions
pub mod Parts
pub mod Stacks
pub mod Dispatch
pub mod Translate
pub mod Saves
pub mod Frame
pub mod FrameShaped
pub mod FrameStacks
pub mod Framed
pub mod Results
pub mod Translated
pub mod Grown
pub mod Axes
pub mod Scanned
pub mod Lengths
pub mod Slices
pub mod Unpacked
