-- ===== src/Assign/Deadness.antt =====
-- CanContractEdgeDeadnessCheck and CheckNodeClusterAssignmentWRTDeadness of
-- ngraph_bridge/assign_clusters.cc.
use ngraph.Prelude.{
  ℕ, String, Bool, true, false, not, ◌&&◌, ◌||◌, Option, none, some, List, [], ◌∷◌, ◌==◌, nat_eq,
  string_eq, if◌then◌else◌,
}
use ngraph.Prelude.Status.{Status, ok, err, internal}
use ngraph.Graph.{Edge, Graph, dst_of, out_edges}
use ngraph.Assign.Cluster.{ClusterMap, cluster_of, is_true_pred_string, is_control_flow_pred_string}

-- the loop over the outgoing edges of the source's cluster, and `found_same_out_preds` at its end
unfoldable pub same_out_preds : Graph → ClusterMap → Edge → String → List ℕ → Bool
unfolding is_true_pred_string
same_out_preds g m e pred_check [] = true
same_out_preds g m e pred_check (out ∷ outs) =
    let rest = same_out_preds g m e pred_check outs in
    if out == e.id
    then rest
    else if not (is_true_pred_string pred_check)
        && not (pred_check == (cluster_of m (dst_of g out)).predicate)
    then false
    else rest

unfoldable pub can_contract_edge_deadness_check : Graph → ClusterMap → Edge → Status Bool
unfolding is_true_pred_string is_control_flow_pred_string
can_contract_edge_deadness_check g m e =
    let src_predicate = (cluster_of m e.src).predicate in
    let dst_predicate = (cluster_of m e.dst).predicate in
    if is_control_flow_pred_string src_predicate || is_control_flow_pred_string dst_predicate
    then err internal
    else if not (is_true_pred_string src_predicate)
        && not (is_true_pred_string dst_predicate)
        && not (src_predicate == dst_predicate)
    then ok false
    else if not (is_true_pred_string src_predicate) && is_true_pred_string dst_predicate
    then err internal
    else if is_true_pred_string src_predicate
    then ok (same_out_preds g m e dst_predicate (cluster_of m e.src).outgoing)
    else ok true

-- the loop over the edges that leave a node with the true predicate
unfoldable pub leaves_ok : Graph → ClusterMap → ℕ → List ℕ → Bool
leaves_ok g m node [] = true
leaves_ok g m node (out ∷ outs) =
    let rest = leaves_ok g m node outs in
    let there = cluster_of m (dst_of g out) in
    let here = cluster_of m node in
    if not (there.index == here.index) && not (there.predicate == here.predicate)
    then false
    else rest

-- `nodes_predicate_map` is a function of the node.
unfoldable pub check_node_cluster_assignment :
    Graph → (ℕ → Option String) → ClusterMap → ℕ → Status (Unit {0})
unfolding is_true_pred_string is_control_flow_pred_string leaves_ok
check_node_cluster_assignment g predicates m node = elim (predicates node) [
  | none ↦ err internal
  | some node_pred ↦
      let cluster_pred = (cluster_of m node).predicate in
      if is_control_flow_pred_string node_pred
      then err internal
      else if not (is_true_pred_string node_pred) && not (node_pred == cluster_pred)
      then err internal
      else if is_true_pred_string node_pred
          && not (is_true_pred_string cluster_pred)
          && not (leaves_ok g m node (out_edges g.edges node))
      then err internal
      else ok tt
]
