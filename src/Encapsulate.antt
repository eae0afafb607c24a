-- ===== src/Encapsulate.antt =====
-- The op that runs a cluster, ngraph_bridge/kernels/ngraph_encapsulate_op.cc.
pub mod Cache
pub mod Keys
pub mod Room
pub mod Served
