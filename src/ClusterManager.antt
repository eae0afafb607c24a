-- ===== src/ClusterManager.antt =====
-- The table of cluster graphs, ngraph_bridge/cluster_manager.cc: its static vector is a value.
pub mod Laws
use ngraph.Prelude.{ℕ, String, Option, List, [], ◌∷◌, ◌++◌, length, get_elem?}
use ngraph.Graph.{AttrValue}

-- TensorFlow's NodeDef, the form in which a node is stored in a GraphDef
pub record NodeDef : Type 0 where
  pub name : String
  pub op : String
  pub inputs : List String
  pub attrs : List (String × AttrValue)

abbrev pub GraphDef : Type 0
GraphDef = List NodeDef

pub record ClusterManager : Type 0 where
  pub cluster_graphs : List GraphDef

unfoldable pub new_cluster : ClusterManager → ℕ × ClusterManager
new_cluster m = (length m.cluster_graphs, record { cluster_graphs = m.cluster_graphs ++ [] ∷ [] })

unfoldable pub get_cluster_graph : ClusterManager → ℕ → Option GraphDef
get_cluster_graph m idx = get_elem? m.cluster_graphs idx

unfoldable pub evict_all_clusters : ClusterManager → ClusterManager
evict_all_clusters m = record { cluster_graphs = [] }
