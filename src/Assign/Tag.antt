-- ===== src/Assign/Tag.antt =====
-- The tagging loop of AssignClusters of ngraph_bridge/assign_clusters.cc, GetNodeCluster, and the
-- whole pass for a run that does not log placement.
use ngraph.Prelude.{
  ℕ, ◌+◌, String, Bool, true, false, not, ◌&&◌, Option, none, some, List, [], ◌∷◌, nat_eq,
  if◌then◌else◌, contains, insert, length,
}
use ngraph.Prelude.Int.{ℤ, pos}
use ngraph.Prelude.Status.{Status, ok, err, internal, ◌>>=◌, ◌>>◌}
use ngraph.Graph.{Node, Graph, ids, int, add_attr, get_int, node_at, update_node}
use ngraph.GraphCycles.{GraphCycles}
use ngraph.ClusterManager.{ClusterManager, new_cluster}
use ngraph.Mark.Access.{node_is_marked_for_clustering}
use ngraph.Assign.Cluster.{ClusterMap}
use ngraph.Assign.Deadness.{check_node_cluster_assignment}
use ngraph.Assign.Setup.{setup}
use ngraph.Assign.Contract.{contract_loop}

pub record Tagging : Type 0 where
  pub graph : Graph
  pub manager : ClusterManager
  pub seen : List ℕ

module _ (predicates : ℕ → Option String) (m : ClusterMap) where
  -- `has_ngraph_ops` and `has_non_ngraph_ops` after the loop over the nodes of a cluster
  unfoldable pub scan_nodes : Graph → List ℕ → Status (Bool × Bool)
  scan_nodes g [] = ok (false, false)
  scan_nodes g (v ∷ vs) =
      let rest = scan_nodes g vs in
      if node_is_marked_for_clustering (node_at g v)
      then (do check_node_cluster_assignment g predicates m v; (ng, non) ← rest; ok (true, non))
      else (do (ng, non) ← rest; ok (ng, true))

  unfoldable pub tag_nodes : ℕ → List ℕ → Graph → Status Graph
  unfolding update_node
  tag_nodes cluster_idx [] g = ok g
  tag_nodes cluster_idx (v ∷ vs) g =
      let rest =
        tag_nodes cluster_idx vs
          (update_node g v (λ n. add_attr n "_ngraph_cluster" (int (pos cluster_idx)))) in
      if node_is_marked_for_clustering (node_at g v) then rest else err internal

  -- one round of the loop over the cluster map, for a node's pointer
  unfoldable pub tag_cluster : ℕ → Tagging → Status Tagging
  unfolding scan_nodes tag_nodes
  tag_cluster p t = if contains t.seen p then ok t else do
    (has_ngraph_ops, has_non_ngraph_ops) ← scan_nodes t.graph (m.heap p).nodes
    if has_ngraph_ops && has_non_ngraph_ops
        then err internal
        else if not has_ngraph_ops
        then ok (record t { seen = insert p t.seen })
        else (let (cluster_idx, manager') = new_cluster t.manager in
            do
              g ← tag_nodes cluster_idx (m.heap p).nodes t.graph
              ok (record { graph = g; manager = manager'; seen = insert p t.seen }))

  -- The map is ordered by the addresses of its nodes; here the order is that of the list.
  unfoldable pub tag_clusters : List ℕ → Tagging → Status Tagging
  unfolding tag_cluster
  tag_clusters [] t = ok t
  tag_clusters (v ∷ vs) t = do t' ← tag_cluster (m.owner v) t; tag_clusters vs t'

-- With placement logging off. `deadness` is DeadnessAnalysis::Run, with GetNodePredicate of its
-- result. `none` would be a contraction loop that does not end.
unfoldable pub assign_clusters :
    (gc : GraphCycles)
    → (Graph → Status (ℕ → Status String))
    → Graph
    → ClusterManager
    → Status (Option Tagging)
unfolding setup contract_loop tag_clusters
assign_clusters gc deadness g manager = do
  predicate ← deadness g
  s ← setup gc g predicate
  found ←
      contract_loop gc g false (length g.nodes + 1) false
        (record { cycles = s.cycles; clusters = s.clusters; reasons = []; changed = false })
  elim found [
    | none ↦ ok none
    | some last ↦ do
      t ←
          tag_clusters s.predicates last.clusters (ids g)
            (record { graph = g; manager = manager; seen = [] })
      ok (some t)
  ]

-- GetNodeCluster: the status, and `*cluster`, which is -1 where the attribute is missing
unfoldable pub get_node_cluster : Node → Option ℤ
unfolding get_int
get_node_cluster n = get_int n "_ngraph_cluster"
