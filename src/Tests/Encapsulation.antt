-- ===== src/Tests/Encapsulation.antt =====
-- A run of the analysis of the encapsulation pass: a cluster of two ops between two others.
use ngraph.Prelude.{
  ℕ, String, ◌≡◌, refl, true, false, Bool, some, List, [], ◌∷◌, arith, nat_eq, ◌<◌, In, string_eq,
  pair_eq, lookup, assign, filter, get_elem?, length, inl, inr, decimal, ap,
}
use ngraph.Prelude.Int.{ℤ, pos, int_eq}
use ngraph.Prelude.Status.{Status, ok, err}
use ngraph.Graph.{
  DataType, dt_float, int, Node, Edge, Graph, is_op, is_control_edge, node_at, find_node, get_int,
}
use ngraph.ClusterManager.{ClusterManager, get_cluster_graph}
use ngraph.Assign.Tag.{get_node_cluster}
use ngraph.Encapsulator.{
  Encapsulator, Output, new_encapsulator, cluster_idx, is_clustered, op_nodes,
}
use ngraph.Encapsulator.Flow.{
  Flow, new_flow, populate_devices, crosses, needs_retval, needs_arg, add_node, add_retval, add_arg,
  record_retval, record_arg, retval_def, arg_def, count_flow, visit_flow, visit_edge, visit_edges,
}
use ngraph.Encapsulator.Copy.{
  tensor_name, keeps_control, place_input, gather_inputs, input_names, rename_input, rename_inputs,
  copy_node, copy_nodes,
}
use ngraph.Encapsulator.Analysis.{analysis_pass, analyse, finish_analysis, numbers_match}
use ngraph.Encapsulator.Devices.{populate_devices-total}
use ngraph.Encapsulator.Counted.{visit_edges-numbers_match}
use ngraph.Encapsulator.Remapped.{IsGood}
use ngraph.Encapsulator.Placed.{visit_edges-IsGood}
use ngraph.Encapsulator.Analysed.{
  analysis_pass-output, analysis_pass-input, analysis_pass-apart, analysis_pass-device,
  new_flow-IsGood,
}

abbrev pub plain : ℕ → String → ℕ → Node
plain v name k = record {
  id = v;
  name = name;
  type_string = "Add";
  num_inputs = k;
  device = "cpu";
  attrs = [];
}

abbrev inside : ℕ → String → ℕ → Node
inside v name k = record (plain v name k) { attrs = ("_ngraph_cluster", int (pos 0)) ∷ [] }

abbrev arrow : ℕ → ℕ → ℕ → Edge
arrow i s d = record { id = i; src = s; src_output = pos 0; dst = d; dst_input = pos 0 }

abbrev pub path_graph : Graph
path_graph = record {
  nodes = plain 2 "a" 0 ∷ inside 3 "b" 1 ∷ inside 4 "c" 1 ∷ plain 5 "d" 1 ∷ [];
  edges = arrow 0 2 3 ∷ arrow 1 3 4 ∷ arrow 2 4 5 ∷ [];
}

abbrev pub one_cluster : ClusterManager
one_cluster = record { cluster_graphs = [] ∷ [] }

abbrev pub names : String → String × ℤ
names s = (s, pos 0)

abbrev pub requested : Node → List String
requested n = []

abbrev pub floats : Node → ℤ → DataType
floats n i = dt_float

abbrev pub is_ok : {A : Type 0} → Status A → Bool
is_ok (ok a) = true
is_ok (err c) = false

abbrev pub value : {A : Type 0} → A → Status A → A
value b (ok a) = a
value b (err c) = b

pub is_ok-eq : {A : Type 0} (b : A) (m : Status A) → is_ok m ≡ true → m ≡ ok (value b m)
is_ok-eq b (ok a) h = refl
is_ok-eq b (err c) h = cc

unfoldable pub analysed : Encapsulator
unfolding analysis_pass new_encapsulator
analysed =
    value (new_encapsulator path_graph one_cluster)
      (analysis_pass names requested floats true (new_encapsulator path_graph one_cluster))

succeeds :
    is_ok (analysis_pass names requested floats true (new_encapsulator path_graph one_cluster))
    ≡ true
unfolding analysis_pass analyse finish_analysis new_encapsulator op_nodes new_flow populate_devices
    visit_edges visit_edge visit_flow numbers_match copy_nodes copy_node gather_inputs input_names
    rename_inputs rename_input add_node add_retval add_arg record_retval record_arg retval_def
    arg_def count_flow needs_retval needs_arg cluster_idx is_clustered get_node_cluster get_int
    node_at find_node is_op is_control_edge keeps_control place_input tensor_name get_cluster_graph
    lookup assign filter decimal
succeeds = refl

pub analysed-eq :
    analysis_pass names requested floats true (new_encapsulator path_graph one_cluster)
    ≡ ok analysed
unfolding analysed
analysed-eq =
    is_ok-eq (new_encapsulator path_graph one_cluster)
      (analysis_pass names requested floats true (new_encapsulator path_graph one_cluster)) succeeds

-- the edge into the cluster, and the edge out of it
abbrev entering : Edge
entering = arrow 0 2 3

abbrev leaving : Edge
leaving = arrow 2 4 5

crossing : (crosses path_graph entering ≡ true) × (crosses path_graph leaving ≡ true)
unfolding crosses is_control_edge is_op node_at find_node cluster_idx get_node_cluster get_int
    lookup
crossing = (refl, refl)

owned : (is_clustered (node_at path_graph 3) ≡ true) × (is_clustered (node_at path_graph 4) ≡ true)
unfolding is_clustered node_at find_node get_node_cluster get_int lookup
owned = (refl, refl)

analysis_pass-output_example :
    (k : ℕ) × (lookup (4, pos 0) analysed.output_remap_map
      ≡ some (cluster_idx (node_at path_graph 4), k))
    × (k < length (analysed.cluster_output_dt_map (cluster_idx (node_at path_graph 4))))
analysis_pass-output_example =
    analysis_pass-output names requested floats true path_graph one_cluster analysed analysed-eq
      leaving (inr (inr (inl refl))) crossing.1 owned.1

analysis_pass-input_example :
    (k : ℕ) × (dt : DataType) × (lookup
        (cluster_idx (node_at path_graph 3), (2, pos 0))
        analysed.input_remap_map
      ≡ some k)
    × (get_elem? (analysed.cluster_input_map (cluster_idx (node_at path_graph 3))) k
        ≡ some ((2, pos 0), dt))
analysis_pass-input_example =
    analysis_pass-input names requested floats true path_graph one_cluster analysed analysed-eq
      entering (inl refl) crossing.0 owned.0

found_output : lookup (4, pos 0) analysed.output_remap_map ≡ some (pos 0, 0)
unfolding analysed analysis_pass analyse finish_analysis new_encapsulator op_nodes new_flow
    populate_devices visit_edges visit_edge visit_flow numbers_match copy_nodes copy_node
    gather_inputs input_names rename_inputs rename_input add_node add_retval add_arg record_retval
    record_arg retval_def arg_def count_flow needs_retval needs_arg cluster_idx is_clustered
    get_node_cluster get_int node_at find_node is_op is_control_edge keeps_control place_input
    tensor_name get_cluster_graph lookup assign filter decimal
found_output = refl

analysis_pass-apart_example : ◌≡◌ {A = Output} (4, pos 0) (4, pos 0)
analysis_pass-apart_example =
    analysis_pass-apart names requested floats true path_graph one_cluster analysed analysed-eq
      (4, pos 0) (4, pos 0) (pos 0) 0 found_output found_output

member : In (inside 3 "b" 1) (op_nodes path_graph)
unfolding op_nodes filter is_op
member = inr (inl refl)

in_cluster : get_node_cluster (inside 3 "b" 1) ≡ some (pos 0)
unfolding get_node_cluster get_int lookup
in_cluster = refl

analysis_pass-device_example : lookup (pos 0) analysed.device_name_map ≡ some "cpu"
analysis_pass-device_example =
    analysis_pass-device names requested floats true path_graph one_cluster analysed analysed-eq
      (inside 3 "b" 1) (pos 0) member in_cluster

populate_devices-total_example :
    (m : List (ℤ × String)) × (populate_devices path_graph.nodes [] ≡ ok m)
unfolding lookup
populate_devices-total_example =
    populate_devices-total path_graph.nodes [] (λ c. "cpu") (λ n c i k. one_device n i)
      (λ c d k. absurd (ground arith))
  where
    one_device : (n : Node) → In n path_graph.nodes → n.device ≡ "cpu"
    one_device n (inl e) = ap (λ z. z.device) e
    one_device n (inr (inl e)) = ap (λ z. z.device) e
    one_device n (inr (inr (inl e))) = ap (λ z. z.device) e
    one_device n (inr (inr (inr (inl e)))) = ap (λ z. z.device) e
    one_device n (inr (inr (inr (inr out)))) = absurd (out tt)

abbrev start : Encapsulator
start = record (new_encapsulator path_graph one_cluster) { device_name_map = [] }

unfoldable flowed : Flow
unfolding visit_edges new_flow new_encapsulator
flowed =
    value (new_flow start) (visit_edges floats true path_graph path_graph.edges (new_flow start))

flows : is_ok (visit_edges floats true path_graph path_graph.edges (new_flow start)) ≡ true
unfolding new_encapsulator new_flow visit_edges visit_edge visit_flow add_node add_retval add_arg
    record_retval record_arg retval_def arg_def count_flow needs_retval needs_arg cluster_idx
    is_clustered get_node_cluster get_int node_at find_node is_op is_control_edge get_cluster_graph
    lookup assign decimal
flows = refl

flowed-eq : visit_edges floats true path_graph path_graph.edges (new_flow start) ≡ ok flowed
unfolding flowed
flowed-eq =
    is_ok-eq (new_flow start) (visit_edges floats true path_graph path_graph.edges (new_flow start))
      flows

visit_edges-numbers_match_example : numbers_match path_graph flowed ≡ true
visit_edges-numbers_match_example =
    visit_edges-numbers_match floats path_graph start flowed flowed-eq

visit_edges-IsGood_example : IsGood path_graph flowed
visit_edges-IsGood_example =
    visit_edges-IsGood floats true path_graph path_graph.edges (new_flow start) flowed
      (new_flow-IsGood names requested floats true path_graph one_cluster []) flowed-eq
