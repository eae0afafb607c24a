-- ===== src/Assign/Setup.antt =====
-- The first part of AssignClusters of ngraph_bridge/assign_clusters.cc: a cluster for each node,
-- the edges of the cycle detector, and the shadow nodes of static inputs.
use ngraph.Prelude.{
  ℕ, String, Bool, not, ◌&&◌, ◌||◌, Option, none, some, List, [], ◌∷◌, ◌==◌, nat_eq, string_eq,
  if◌then◌else◌, update, get_elem?,
}
use ngraph.Prelude.Int.{ℤ, pos, negsuc}
use ngraph.Prelude.Status.{Status, ok, err, internal, unimplemented, fatal, ◌>>=◌}
use ngraph.Graph.{Node, Edge, Graph, is_op, is_next_iteration, node_at, out_edges, input_edges}
use ngraph.GraphCycles.{GraphCycles}
use ngraph.Mark.Access.{get_static_inputs}
use ngraph.Assign.Cluster.{ClusterMap, index_of}

pub record Start (C : Type 0) : Type 0 where
  pub cycles : C
  pub clusters : ClusterMap
  pub predicates : ℕ → Option String

-- before the first loop no node has an entry
abbrev pub no_clusters : ClusterMap
no_clusters = record {
  owner = λ v. v;
  heap = λ v. record { index = 0; nodes = []; predicate = ""; outgoing = [] };
}

-- `static_inputs` reads a vector of edges by its index; a read outside it is undefined.
unfoldable pub read_edge : List Edge → ℤ → Status Edge
read_edge es (pos i) = elim (get_elem? es i) [ some e ↦ ok e | none ↦ err fatal ]
read_edge es (negsuc i) = err fatal

-- the edges that the check for cyclicity does not skip
unfoldable pub is_flow_edge : Graph → Edge → Bool
unfolding is_op is_next_iteration node_at
is_flow_edge g e =
    is_op e.src
    && is_op e.dst
    && not (is_next_iteration (node_at g e.src) || is_next_iteration (node_at g e.dst))

module _ (gc : GraphCycles) (g : Graph) where
  -- `predicate` is DeadnessAnalysis::GetNodePredicate
  unfoldable pub make_cluster :
      (ℕ → Status String) → Node → Start gc.State → Status (Start gc.State)
  make_cluster predicate n s = do
    let (new_index, cycles') = gc.new_node s.cycles
    pred_string ← predicate n.id
    ok (record {
      cycles = cycles';
      clusters = record {
        owner = update s.clusters.owner n.id n.id;
        heap = update s.clusters.heap n.id (record {
          index = new_index;
          nodes = n.id ∷ [];
          predicate = pred_string;
          outgoing = out_edges g.edges n.id;
        });
      };
      predicates = update s.predicates n.id (some pred_string);
    })

  unfoldable pub make_clusters :
      (ℕ → Status String) → List Node → Start gc.State → Status (Start gc.State)
  unfolding make_cluster
  make_clusters predicate [] s = ok s
  make_clusters predicate (n ∷ ns) s = do
    s' ← make_cluster predicate n s
    make_clusters predicate ns s'

  unfoldable pub insert_flow_edge : ClusterMap → Edge → gc.State → Status gc.State
  insert_flow_edge m e c =
      if is_flow_edge g e
      then (let (inserted, c') = gc.insert_edge c (index_of m e.src) (index_of m e.dst) in
          if inserted then ok c' else err unimplemented)
      else ok c

  unfoldable pub insert_flow_edges : ClusterMap → List Edge → gc.State → Status gc.State
  unfolding insert_flow_edge
  insert_flow_edges m [] c = ok c
  insert_flow_edges m (e ∷ es) c = do c' ← insert_flow_edge m e c; insert_flow_edges m es c'

  unfoldable pub insert_shadow : ClusterMap → Edge → gc.State → Status gc.State
  insert_shadow m e c =
      if (node_at g e.src).type_string == "Const"
      then ok c
      else (let (shadow, c1) = gc.new_node c in
          let (into, c2) = gc.insert_edge c1 (index_of m e.src) shadow in
          let (out, c3) = gc.insert_edge c2 shadow (index_of m e.dst) in
          if into && out then ok c3 else err internal)

  unfoldable pub insert_shadows : ClusterMap → List Edge → List ℤ → gc.State → Status gc.State
  unfolding insert_shadow read_edge
  insert_shadows m edges [] c = ok c
  insert_shadows m edges (i ∷ is) c = do
    e ← read_edge edges i
    c' ← insert_shadow m e c
    insert_shadows m edges is c'

  -- one round of the loop over `graph->op_nodes()`
  unfoldable pub shadow_node : ClusterMap → Node → gc.State → Status gc.State
  unfolding insert_shadows input_edges get_static_inputs
  shadow_node m n c =
      if is_op n.id
      then elim (get_static_inputs n) [
        | [] ↦ ok c
        | i ∷ is ↦ do edges ← input_edges g n; insert_shadows m edges (i ∷ is) c
      ]
      else ok c

  unfoldable pub shadow_nodes : ClusterMap → List Node → gc.State → Status gc.State
  unfolding shadow_node
  shadow_nodes m [] c = ok c
  shadow_nodes m (n ∷ ns) c = do c' ← shadow_node m n c; shadow_nodes m ns c'

  unfoldable pub setup : (ℕ → Status String) → Status (Start gc.State)
  unfolding make_clusters insert_flow_edges shadow_nodes
  setup predicate = do
    s ←
        make_clusters predicate g.nodes
          (record { cycles = gc.empty; clusters = no_clusters; predicates = λ v. none })
    c1 ← insert_flow_edges s.clusters g.edges s.cycles
    c2 ← shadow_nodes s.clusters g.nodes c1
    ok (record s { cycles = c2 })
