-- ===== src/Assign/Cluster.antt =====
-- `struct Cluster`, the cluster map and MergeClusters of ngraph_bridge/assign_clusters.cc.
--
-- The map holds shared pointers, and nodes of one cluster share theirs, so it is two maps: the
-- pointer of each node, and the cluster behind each pointer. A pointer is named by the node for
-- which its cluster was made. After the first loop of AssignClusters every node has an entry.
use ngraph.Prelude.{
  ℕ, String, Bool, List, [], ◌∷◌, ◌==◌, nat_eq, string_eq, if◌then◌else◌, update, insert,
  insert_all, erase,
}
use ngraph.Graph.{Edge}

pub record Cluster : Type 0 where
  pub index : ℕ
  pub nodes : List ℕ
  pub predicate : String
  pub outgoing : List ℕ

pub record ClusterMap : Type 0 where
  pub owner : ℕ → ℕ
  pub heap : ℕ → Cluster

abbrev pub cluster_of : ClusterMap → ℕ → Cluster
cluster_of m v = m.heap (m.owner v)

abbrev pub index_of : ClusterMap → ℕ → ℕ
index_of m v = (cluster_of m v).index

-- DeadnessAnalysis::TRUE_PRED_STRING and CONTROL_FLOW_PRED_STRING
unfoldable pub is_true_pred_string : String → Bool
is_true_pred_string p = p == "#true"

unfoldable pub is_control_flow_pred_string : String → Bool
is_control_flow_pred_string p = p == "#control_flow"

unfoldable pub get_merged_cluster_pred : String → String → String
unfolding is_true_pred_string
get_merged_cluster_pred src_predicate dst_predicate =
    if is_true_pred_string src_predicate then dst_predicate else src_predicate

-- the assignments to `cluster_map[src]->predicate_string` and `->outgoing_edges`
unfoldable pub merge_properties : Edge → ClusterMap → ClusterMap
unfolding get_merged_cluster_pred
merge_properties e m =
    let s = cluster_of m e.src in
    let d = cluster_of m e.dst in
    record m {
      heap = update m.heap (m.owner e.src) (record s {
        predicate = get_merged_cluster_pred s.predicate d.predicate;
        outgoing = erase e.id (insert_all d.outgoing s.outgoing);
      });
    }

-- one round of the loop over the nodes of the destination's cluster
unfoldable pub absorb_node : ℕ → ℕ → ClusterMap → ClusterMap
absorb_node src node m =
    let c = cluster_of m src in
    record {
      heap = update m.heap (m.owner src) (record c { nodes = insert node c.nodes });
      owner = update m.owner node (m.owner src);
    }

unfoldable pub absorb : ℕ → List ℕ → ClusterMap → ClusterMap
absorb src [] m = m
absorb src (node ∷ nodes) m = absorb src nodes (absorb_node src node m)

unfoldable pub merge_clusters : Edge → ClusterMap → ClusterMap
merge_clusters e m = let m' = merge_properties e m in absorb e.src (cluster_of m' e.dst).nodes m'
