-- ===== src/Lib.antt =====
-- A model of the nGraph bridge for TensorFlow (ngraph_bridge/): the passes that choose the parts of
-- a TensorFlow graph that run on nGraph.
--
-- The passes run in this order over one graph: the marking pass marks the ops that nGraph supports
-- (ngraph_bridge/mark_for_clustering.cc, MarkForClustering), the clustering pass gives marked ops
-- cluster ids (ngraph_bridge/assign_clusters.cc, AssignClusters), and the deassignment pass takes
-- small clusters away (ngraph_bridge/deassign_clusters.cc, DeassignClusters), and the encapsulation
-- pass replaces each cluster by one op (ngraph_bridge/encapsulate_clusters.cc). They communicate
-- through the attributes `_ngraph_marked_for_clustering`, `_ngraph_static_inputs` and
-- `_ngraph_cluster` of the nodes. Each cluster has a graph in a table
-- (ngraph_bridge/cluster_manager.cc), and its ops are translated by the handlers of
-- ngraph_bridge/ngraph_builder.cc when the op of the cluster runs for inputs that it has not seen
-- (ngraph_bridge/kernels/ngraph_encapsulate_op.cc).
--
-- The files:
--   Prelude         shared names: tests, equality, lists, sets, maps, integers, Status
--   Graph           TensorFlow's graph as the passes see it; a Node* or Edge* is its id, and a write
--                   through a pointer is `update_node`
--   GraphCycles     the calls of the incremental cycle detector, with their laws. The detector
--                   (ngraph_bridge/tf_graphcycles.cc) is a copy of TensorFlow's, so it is a parameter
--   ClusterManager  NewCluster, GetClusterGraph, EvictAllClusters on the table as a value
--   Mark            Types, Confirm and Statics hold the tables of GetTypeConstraintMap,
--                   GetConfirmationMap and GetAttributeSetters; Pass is MarkForClustering with its
--                   static variables as a state; Access reads the marks back, and Arguments
--                   those of a whole cluster
--   Assign          Cluster is `struct Cluster`, the map from nodes to clusters and MergeClusters;
--                   Deadness the two deadness checks; Setup the loops before the contraction;
--                   Contract the do-while loop; Tag the tagging loop and the whole pass. The other
--                   modules prove what holds of them
--   Deassign        DeassignClusters; its child modules prove which clusters stay
--   Encapsulator    `class Encapsulator`: Flow is the first two passes of AnalysisPass, Copy the fifth
--                   with AddInput, Analysis puts them together; Rewrite is RewritePass and Pass is
--                   EncapsulateClusters. Steps shows pass 2 as steps; the other modules prove what holds
--   Builder         Handlers is TRANSLATE_OP_MAP and its lookup; Inputs and Statics are the helpers that
--                   read values and static tensors, Elementwise, Shaped, Reductions, Parts and Stacks are
--                   handlers, Dispatch calls a handler by its name, and Translate is TranslateGraph. A
--                   value of the nGraph library and the building of a node are the parameter Library.
--                   The other modules prove what holds
--   Encapsulate     GetExecutable of ngraph_bridge/kernels/ngraph_encapsulate_op.cc: the cache of
--                   executables with its list of recently used signatures. The signature, the
--                   translation and the compilation are parameters, of which nothing is assumed
--   Conversions     NHWCtoNCHW, NCHWtoNHWC and NHWCtoHW of ngraph_bridge/ngraph_conversions.{h,cc}, on
--                   shapes
--   TransposeSinking  the permutation helpers and the pads of sink_pad of
--                   ngraph_bridge/pass/transpose_sinking.cc, on vectors of numbers
--   Tests           runs at concrete inputs, with a cycle detector that has the laws
--
-- The cluster map of AssignClusters maps nodes to shared pointers. It is modelled as the pointer of
-- each node (`owner`) and the cluster behind each pointer (`heap`), so that the aliasing of the source
-- is kept. The deadness analysis (ngraph_bridge/tf_deadness_analysis.cc, a copy of TensorFlow's) is a
-- function from a graph to the predicates of its nodes. An error keeps its code and not its text.
--
-- TensorFlow's edits of a graph in RewritePass, its conversion of a GraphDef and its parser of tensor
-- names are parameters; where a theorem needs what an edit does to the nodes, that is a hypothesis. A
-- null pointer that the code would dereference is the error `fatal`, and what a failed pass has
-- written is dropped with its error.
--
-- Numbers are unbounded, but the lengths of a split and the elements of static tensors are those of the
-- machine types, with the wrap-around of each conversion (Prelude.Words). Signed overflow, which C++
-- leaves undefined, wraps in the model.
--
-- The contraction loop runs on fuel: one round more than there are nodes. A round that changes
-- something leaves one cluster fewer, so this is enough, which is proved.
--
-- Not modelled: printing and logging, also the placement report of AssignClusters; mutexes, each
-- operation of the cluster manager being one step; the orders in which containers of pointers are
-- visited, for which the order of the graph's lists stands; what the nodes
-- of the nGraph library compute; the handlers of constants, convolutions, pools, normalisation and
-- slices; numbers of a constant that are not integers; the nodes that the transpose sinking pass
-- rewrites; the backend and the tensors.
pub mod Prelude
pub mod Graph
pub mod GraphCycles
pub mod ClusterManager
pub mod Mark
pub mod Assign
pub mod Builder
pub mod Deassign
pub mod Conversions
pub mod Encapsulate
pub mod Encapsulator
pub mod TransposeSinking
pub mod Tests
