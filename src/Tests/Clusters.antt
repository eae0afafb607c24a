-- ===== src/Tests/Clusters.antt =====
-- Runs of the clustering pass: a triangle of ops that is put in one cluster, and an op with a
-- static input that is kept out of it.
use ngraph.Prelude.{
  sym, ◌∙◌, assign, length, ◌≤◌, ◌<◌, ℕ, String, ◌≡◌, refl, Bool, true, false, Option, none, some,
  List, [], ◌∷◌, inl, inr, ◌*◌, ◌==◌, nat_eq, if◌then◌else◌, lookup, contains, erase, insert,
  insert_all, ◌≢◌,
}
use ngraph.Prelude.Int.{pos}
use ngraph.Prelude.Status.{Status, ok, err}
use ngraph.Graph.{
  update_node, add_attr, get_int, Node, Edge, Graph, AttrValue, ints, flag, input_edges,
  input_edges_from, find_input, get_ints, is_op, is_next_iteration, node_at, find_node, out_edges,
  ids, dst_of, find_dst, get_flag,
}
use ngraph.GraphCycles.{GraphCycles, IsLawful}
use ngraph.ClusterManager.{ClusterManager, new_cluster, get_cluster_graph}
use ngraph.Assign.Cluster.{
  cluster_of, merge_clusters, merge_properties, absorb, absorb_node, get_merged_cluster_pred,
  is_true_pred_string, is_control_flow_pred_string,
}
use ngraph.Assign.Setup.{
  Start, setup, no_clusters, make_clusters, make_cluster, insert_flow_edges, insert_flow_edge,
  shadow_nodes, shadow_node, insert_shadows, insert_shadow, read_edge, is_flow_edge,
}
use ngraph.Assign.Contract.{Search, contract_loop, round, visit_all, visit, try_contract, refusal}
use ngraph.Assign.Deadness.{
  can_contract_edge_deadness_check, same_out_preds, check_node_cluster_assignment, leaves_ok,
}
use ngraph.Assign.Convex.{Flow, here, along}
use ngraph.Assign.Shadows.{IsStaticEdge}
use ngraph.Assign.Predicates.{Fits}
use ngraph.Assign.Ends.{assign_clusters-ne-none}
use ngraph.ClusterManager.Laws.{get-new_cluster}
use ngraph.Assign.Tag.{
  Tagging, assign_clusters, tag_clusters, tag_cluster, scan_nodes, tag_nodes, get_node_cluster,
}
use ngraph.Assign.Tagged.{cluster_at}
use ngraph.Assign.Moves.{marked}
use ngraph.Assign.Outcome.{
  assign_clusters-ids, assign_clusters-convex, assign_clusters-static_inputs,
}
use ngraph.Assign.Invariant.{Known, EndsKnown, IsSound}
use ngraph.Assign.Contracted.{begin, contracted-IsSound, contracted-predicates}
use ngraph.Tests.Detector.{ranked, ranked-IsLawful, Ranked, has_pair, fits, rename_pairs}
use ngraph.Mark.Access.{get_static_inputs, node_is_marked_for_clustering, input_is_static}

-- the shadow node 6 goes between 4 and 5
abbrev rank : ℕ → ℕ
rank n = if n == 6 then 9 else 2 * n

abbrev detector : GraphCycles
detector = ranked rank

abbrev mark : String × AttrValue
mark = ("_ngraph_marked_for_clustering", flag true)

abbrev op : ℕ → String → String → ℕ → List (String × AttrValue) → Node
op i name kind inputs attrs = record {
  id = i;
  name = name;
  type_string = kind;
  num_inputs = inputs;
  device = "";
  attrs = attrs;
}

abbrev edge : ℕ → ℕ → ℕ → ℕ → Edge
edge i s d slot = record { id = i; src = s; src_output = pos 0; dst = d; dst_input = pos slot }

abbrev triangle : Graph
triangle = record {
  nodes =
      op 0 "_SOURCE" "NoOp" 0 []
      ∷ op 1 "_SINK" "NoOp" 0 []
      ∷ op 2 "x" "Relu" 0 (mark ∷ [])
      ∷ op 3 "y" "Abs" 1 (mark ∷ [])
      ∷ op 4 "z" "Add" 2 (mark ∷ [])
      ∷ op 5 "r" "Reshape" 2 (mark ∷ ("_ngraph_static_inputs", ints (pos 1 ∷ [])) ∷ [])
      ∷ [];
  edges = edge 0 2 3 0 ∷ edge 1 3 4 0 ∷ edge 2 2 4 1 ∷ edge 3 3 5 0 ∷ edge 4 4 5 1 ∷ [];
}

abbrev always : ℕ → Status String
always v = ok "#true"

-- the answer of a run that succeeds
abbrev answer : {A : Type 0} → A → Status A → A
answer b (ok a) = a
answer b (err c) = b

abbrev found : {A : Type 0} → A → Option A → A
found b (some a) = a
found b none = b

abbrev is_found : {A : Type 0} → Status (Option A) → Bool
is_found (ok (some a)) = true
is_found (ok none) = false
is_found (err c) = false

is_found-eq :
    {A : Type 0} (b : A) (m : Status (Option A))
    → is_found m ≡ true
    → m ≡ ok (some (found b (answer none m)))
is_found-eq b (ok (some a)) h = refl
is_found-eq b (ok none) h = cc
is_found-eq b (err c) h = cc

abbrev nothing : Start Ranked
nothing = record {
  cycles = record { next = 0; pairs = []; dead = [] };
  clusters = no_clusters;
  predicates = λ v. none;
}

unfoldable ready_state : Start detector.State
unfolding setup make_clusters make_cluster insert_flow_edges insert_flow_edge shadow_nodes
    shadow_node insert_shadows insert_shadow read_edge input_edges input_edges_from find_input
    get_static_inputs get_ints lookup is_flow_edge is_op is_next_iteration node_at find_node
    out_edges ranked has_pair fits rename_pairs contains erase
ready_state = answer nothing (setup detector triangle always)

ready : setup detector triangle always ≡ ok ready_state
unfolding ready_state setup make_clusters make_cluster insert_flow_edges insert_flow_edge
    shadow_nodes shadow_node insert_shadows insert_shadow read_edge input_edges input_edges_from
    find_input get_static_inputs get_ints lookup is_flow_edge is_op is_next_iteration node_at
    find_node out_edges ranked has_pair fits rename_pairs contains erase
ready = refl

unfoldable last_state : Search detector.State
unfolding ranked
last_state =
    found (begin nothing)
      (answer none (contract_loop detector triangle false 3 false (begin ready_state)))

does_end : is_found (contract_loop detector triangle false 3 false (begin ready_state)) ≡ true
unfolding ready_state contract_loop round visit_all visit try_contract refusal merge_clusters
    merge_properties absorb absorb_node get_merged_cluster_pred is_true_pred_string
    is_control_flow_pred_string can_contract_edge_deadness_check same_out_preds dst_of find_dst
    node_is_marked_for_clustering get_flag input_is_static insert insert_all setup make_clusters
    make_cluster insert_flow_edges insert_flow_edge shadow_nodes shadow_node insert_shadows
    insert_shadow read_edge input_edges input_edges_from find_input get_static_inputs get_ints
    lookup is_flow_edge is_op is_next_iteration node_at find_node out_edges ranked has_pair fits
    rename_pairs contains erase
does_end = refl

ended : contract_loop detector triangle false 3 false (begin ready_state) ≡ ok (some last_state)
unfolding last_state ranked
ended =
    is_found-eq (begin nothing) (contract_loop detector triangle false 3 false (begin ready_state))
      does_end

owners : last_state.clusters.owner 2 ≡ last_state.clusters.owner 4
unfolding last_state ready_state contract_loop round visit_all visit try_contract refusal
    merge_clusters merge_properties absorb absorb_node get_merged_cluster_pred is_true_pred_string
    is_control_flow_pred_string can_contract_edge_deadness_check same_out_preds dst_of find_dst
    node_is_marked_for_clustering get_flag input_is_static insert insert_all setup make_clusters
    make_cluster insert_flow_edges insert_flow_edge shadow_nodes shadow_node insert_shadows
    insert_shadow read_edge input_edges input_edges_from find_input get_static_inputs get_ints
    lookup is_flow_edge is_op is_next_iteration node_at find_node out_edges ranked has_pair fits
    rename_pairs contains erase
owners = refl

ends : EndsKnown triangle
unfolding contains
ends e (inl p) = rw p (refl, refl)
ends e (inr (inl p)) = rw p (refl, refl)
ends e (inr (inr (inl p))) = rw p (refl, refl)
ends e (inr (inr (inr (inl p)))) = rw p (refl, refl)
ends e (inr (inr (inr (inr (inl p))))) = rw p (refl, refl)
ends e (inr (inr (inr (inr (inr p))))) = absurd (p tt)

lawful : IsLawful detector
lawful = ranked-IsLawful rank

known : (contains (ids triangle) 2 ≡ true) × (contains (ids triangle) 3 ≡ true)
unfolding contains
known = (refl, refl)

flow : Flow triangle 2 3 × Flow triangle 3 4
unfolding is_flow_edge is_op is_next_iteration node_at find_node
flow = (
  along (edge 0 2 3 0) (inl refl) refl (here 3),
  along (edge 1 3 4 0) (inr (inl refl)) refl (here 4),
)

static :
    IsStaticEdge triangle
      (op 5 "r" "Reshape" 2 (mark ∷ ("_ngraph_static_inputs", ints (pos 1 ∷ [])) ∷ []))
      (edge 4 4 5 1)
unfolding input_edges input_edges_from find_input get_static_inputs get_ints lookup is_op node_at
    find_node read_edge
static = record {
  op = refl;
  edges = edge 3 3 5 0 ∷ edge 4 4 5 1 ∷ [];
  inputs = refl;
  index = pos 1;
  static = inl refl;
  read = refl;
  not_const = λ p. cc;
}

contracted-IsSound_example : IsSound detector triangle last_state.cycles last_state.clusters
contracted-IsSound_example =
    contracted-IsSound detector lawful triangle ends always false 3 ready_state last_state ready
      ended

contracted-predicates_example :
    (p : String) × (ready_state.predicates 3 ≡ some p)
    × Fits p (cluster_of last_state.clusters 3).predicate
contracted-predicates_example =
    contracted-predicates detector lawful triangle ends always false 3 ready_state last_state ready
      ended 3 known.1

assign_clusters-ne-none_example :
    assign_clusters detector (λ g. ok always) triangle (record { cluster_graphs = [] }) ≢ ok none
assign_clusters-ne-none_example =
    assign_clusters-ne-none detector lawful (λ g. ok always) triangle ends
      (record { cluster_graphs = [] })

get-new_cluster_example :
    (get_cluster_graph (new_cluster (record { cluster_graphs = [] ∷ [] })).1 1 ≡ (
      if 1 == (new_cluster (record { cluster_graphs = [] ∷ [] })).0
      then some []
      else get_cluster_graph (record { cluster_graphs = [] ∷ [] }) 1))
    × (get_cluster_graph
          (record { cluster_graphs = [] ∷ [] })
          (new_cluster (record { cluster_graphs = [] ∷ [] })).0
        ≡ none)
get-new_cluster_example = get-new_cluster (record { cluster_graphs = [] ∷ [] }) 1

abbrev empty_table : ClusterManager
empty_table = record { cluster_graphs = [] }

unfoldable run : Status (Option Tagging)
run = assign_clusters detector (λ g. ok always) triangle empty_table

run_succeeds : is_found run ≡ true
unfolding ready_state contract_loop round visit_all visit try_contract refusal merge_clusters
    merge_properties absorb absorb_node get_merged_cluster_pred is_true_pred_string
    is_control_flow_pred_string can_contract_edge_deadness_check same_out_preds dst_of find_dst
    node_is_marked_for_clustering get_flag input_is_static insert insert_all setup make_clusters
    make_cluster insert_flow_edges insert_flow_edge shadow_nodes shadow_node insert_shadows
    insert_shadow read_edge input_edges input_edges_from find_input get_static_inputs get_ints
    lookup is_flow_edge is_op is_next_iteration node_at find_node out_edges ranked has_pair fits
    rename_pairs contains erase assign_clusters tag_clusters tag_cluster scan_nodes tag_nodes
    update_node add_attr assign check_node_cluster_assignment leaves_ok new_cluster run
run_succeeds = refl

unfoldable result : Tagging
result = found (record { graph = triangle; manager = empty_table; seen = [] }) (answer none run)

succeeded : assign_clusters detector (λ g. ok always) triangle empty_table ≡ ok (some result)
unfolding result run
succeeded =
    is_found-eq (record { graph = triangle; manager = empty_table; seen = [] }) run run_succeeds

ids_of_run :
    (cluster_at result.graph 2 ≡ some (pos 0))
    × (cluster_at result.graph 4 ≡ some (pos 0))
    × (cluster_at result.graph 5 ≡ some (pos 1))
unfolding ready_state contract_loop round visit_all visit try_contract refusal merge_clusters
    merge_properties absorb absorb_node get_merged_cluster_pred is_true_pred_string
    is_control_flow_pred_string can_contract_edge_deadness_check same_out_preds dst_of find_dst
    node_is_marked_for_clustering get_flag input_is_static insert insert_all setup make_clusters
    make_cluster insert_flow_edges insert_flow_edge shadow_nodes shadow_node insert_shadows
    insert_shadow read_edge input_edges input_edges_from find_input get_static_inputs get_ints
    lookup is_flow_edge is_op is_next_iteration node_at find_node out_edges ranked has_pair fits
    rename_pairs contains erase assign_clusters tag_clusters tag_cluster scan_nodes tag_nodes
    update_node add_attr assign check_node_cluster_assignment leaves_ok new_cluster result run
    get_node_cluster get_int
ids_of_run = (refl, refl, refl)

all_known :
    (contains (ids triangle) 2 ≡ true)
    × (contains (ids triangle) 3 ≡ true)
    × (contains (ids triangle) 4 ≡ true)
unfolding contains
all_known = (refl, refl, refl)

all_marked : (marked triangle 2 ≡ true) × (marked triangle 4 ≡ true) × (marked triangle 5 ≡ true)
unfolding node_is_marked_for_clustering get_flag lookup node_at find_node
all_marked = (refl, refl, refl)

assign_clusters-ids_example :
    (ids result.graph ≡ ids triangle)
    × ((v : ℕ)
        → Known triangle v
        → (marked result.graph v ≡ marked triangle v)
          × (marked triangle v ≡ false → cluster_at result.graph v ≡ cluster_at triangle v)
          × (marked triangle v ≡ true
              → (i : ℕ) × (cluster_at result.graph v ≡ some (pos i))
                × (length empty_table.cluster_graphs ≤ i)
                × (i < length result.manager.cluster_graphs)))
assign_clusters-ids_example =
    assign_clusters-ids detector lawful (λ g. ok always) triangle ends empty_table result succeeded

assign_clusters-convex_example :
    (marked triangle 3 ≡ true) × (cluster_at result.graph 3 ≡ cluster_at result.graph 2)
assign_clusters-convex_example =
    assign_clusters-convex detector lawful (λ g. ok always) triangle ends empty_table result
      succeeded 2 3 4 all_known.0 all_known.1 all_known.2 flow.0 flow.1 all_marked.0 all_marked.1
      (ids_of_run.0 ∙ sym ids_of_run.1)

assign_clusters-static_inputs_example : cluster_at result.graph 4 ≢ cluster_at result.graph 5
assign_clusters-static_inputs_example =
    assign_clusters-static_inputs detector lawful (λ g. ok always) triangle ends empty_table result
      succeeded (op 5 "r" "Reshape" 2 (mark ∷ ("_ngraph_static_inputs", ints (pos 1 ∷ [])) ∷ []))
      (inr (inr (inr (inr (inr (inl refl)))))) (edge 4 4 5 1) (inr (inr (inr (inr (inl refl)))))
      static all_marked.1 all_marked.2
