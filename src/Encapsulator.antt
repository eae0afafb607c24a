-- ===== src/Encapsulator.antt =====
-- `class Encapsulator` of ngraph_bridge/encapsulate_clusters.h, the pass that turns each cluster into
-- one op. The static table of the cluster manager is kept beside the members.
pub mod Flow
pub mod Copy
pub mod Analysis
pub mod Rewrite
pub mod Pass
pub mod Steps
pub mod Devices
pub mod Counted
pub mod Remapped
pub mod Places
pub mod Placed
pub mod Analysed
pub mod Protocol
pub mod Created
pub mod Edited
pub mod Removed
pub mod Installed
pub mod Survives
use ngraph.Prelude.{ℕ, String, Bool, true, false, Option, none, some, List, [], filter, string_eq}
use ngraph.Prelude.Int.{ℤ, negsuc}
use ngraph.Graph.{DataType, Node, Graph, is_op}
use ngraph.ClusterManager.{ClusterManager}
use ngraph.Assign.Tag.{get_node_cluster}

-- an output of a node: its id, and the slot
abbrev pub Output : Type 0
Output = ℕ × ℤ

pub record Encapsulator : Type 0 where
  pub graph : Graph
  pub analysis_done : Bool
  pub rewrite_done : Bool
  pub device_name_map : List (ℤ × String)
  pub output_remap_map : List (Output × (ℤ × ℕ))
  pub input_remap_map : List ((ℤ × Output) × ℕ)
  pub input_rename_map : List ((ℤ × (String × ℤ)) × String)
  pub cluster_output_dt_map : ℤ → List DataType
  pub cluster_input_map : ℤ → List (Output × DataType)
  pub cluster_node_map : ℤ → Option ℕ
  pub manager : ClusterManager

unfoldable pub new_encapsulator : Graph → ClusterManager → Encapsulator
new_encapsulator g m = record {
  graph = g;
  analysis_done = false;
  rewrite_done = false;
  device_name_map = [];
  output_remap_map = [];
  input_remap_map = [];
  input_rename_map = [];
  cluster_output_dt_map = λ c. [];
  cluster_input_map = λ c. [];
  cluster_node_map = λ c. none;
  manager = m;
}

-- what `GetNodeCluster` writes to its second argument: -1 if the node has no cluster
unfoldable pub cluster_idx : Node → ℤ
unfolding get_node_cluster
cluster_idx n = elim (get_node_cluster n) [ none ↦ negsuc 0 | some c ↦ c ]

unfoldable pub is_clustered : Node → Bool
unfolding get_node_cluster
is_clustered n = elim (get_node_cluster n) [ none ↦ false | some c ↦ true ]

unfoldable pub op_nodes : Graph → List Node
unfolding is_op
op_nodes g = filter (λ n. is_op n.id) g.nodes
