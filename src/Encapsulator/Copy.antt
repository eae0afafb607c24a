-- ===== src/Encapsulator/Copy.antt =====
-- Pass 5 of Encapsulator::AnalysisPass and AddInput, ngraph_bridge/encapsulate_clusters.cc: the nodes
-- of a cluster are copied into its graph, and read what enters the cluster from its arguments.
use ngraph.Prelude.{
  ℕ, zero, suc, String, Bool, true, false, ◌&&◌, Option, none, some, List, [], ◌∷◌, ◌++◌, ◌==◌,
  nat_eq, string_eq, pair_eq, if◌then◌else◌, lookup, get_elem?, set, str_cat,
}
use ngraph.Prelude.Int.{ℤ, pos, negsuc, int_eq}
use ngraph.Prelude.Status.{Status, ok, err, fatal, ◌>>=◌}
use ngraph.Graph.{Node, Edge, Graph, is_op, is_control_edge, node_at}
use ngraph.ClusterManager.{ClusterManager}
use ngraph.Assign.Tag.{get_node_cluster}
use ngraph.Encapsulator.{cluster_idx, is_clustered}
use ngraph.Encapsulator.Flow.{add_node, slot_text}

-- the text that AddInput appends; `kControlSlot` is -1
unfoldable pub tensor_name : String → ℤ → String
tensor_name src_name (negsuc zero) = str_cat ("^" ∷ src_name ∷ [])
tensor_name src_name (negsuc (suc n)) = str_cat (src_name ∷ ":" ∷ slot_text (negsuc (suc n)) ∷ [])
tensor_name src_name (pos zero) = src_name
tensor_name src_name (pos (suc n)) = str_cat (src_name ∷ ":" ∷ slot_text (pos (suc n)) ∷ [])

abbrev pub nulls : ℕ → List (Option Edge)
nulls zero = []
nulls (suc k) = none ∷ nulls k

-- the control edge is kept if its source is in the cluster of the node
unfoldable pub keeps_control : Graph → ℤ → Edge → Bool
unfolding node_at cluster_idx is_clustered
keeps_control g c e = is_clustered (node_at g e.src) && cluster_idx (node_at g e.src) == c

-- `inputs[edge->dst_input()] = edge` after its CHECK; out of the vector's range is undefined.
unfoldable pub place_input : Edge → List (Option Edge) → Status (List (Option Edge))
place_input e inputs = elim e.dst_input [
  | negsuc _ ↦ err fatal
  | pos i ↦ elim (get_elem? inputs i) [
    | some none ↦ ok (set inputs i (some e))
    | some (some _) ↦ err fatal
    | none ↦ err fatal
  ]
]

-- the loop over `in_edges`, here over all the edges with a test for the node
unfoldable pub gather_inputs :
    Graph → ℤ → ℕ → List Edge → List (Option Edge) → Status (List (Option Edge))
unfolding is_control_edge keeps_control place_input
gather_inputs g c v [] inputs = ok inputs
gather_inputs g c v (e ∷ es) inputs = elim (e.dst == v) [
  | false ↦ gather_inputs g c v es inputs
  | true ↦ elim (is_control_edge e) [
    | true ↦ gather_inputs g c v es (if keeps_control g c e then inputs ++ some e ∷ [] else inputs)
    | false ↦ do inputs' ← place_input e inputs; gather_inputs g c v es inputs'
  ]
]

abbrev first_or_empty : List String → String
first_or_empty [] = ""
first_or_empty (r ∷ rs) = r

abbrev tail : List String → List String
tail [] = []
tail (r ∷ rs) = rs

-- `requested` is `requested_inputs()` from the position of the first input on.
unfoldable pub input_names : Graph → List String → List (Option Edge) → List String
unfolding is_op node_at tensor_name
input_names g requested [] = []
input_names g requested (none ∷ es) = first_or_empty requested ∷ input_names g (tail requested) es
input_names g requested (some e ∷ es) =
    let later = input_names g (tail requested) es in
    if is_op e.src then tensor_name (node_at g e.src).name e.src_output ∷ later else later

-- `parse_tensor_name`: TensorFlow's ParseTensorName, and `requested_inputs`: a node's list of them
module _ (parse_tensor_name : String → String × ℤ) (requested_inputs : Node → List String) where
  unfoldable pub rename_input : List ((ℤ × (String × ℤ)) × String) → ℤ → String → String
  unfolding lookup
  rename_input renames c input = elim (lookup (c, parse_tensor_name input) renames) [
    | none ↦ input
    | some new_name ↦ new_name
  ]

  unfoldable pub rename_inputs : List ((ℤ × (String × ℤ)) × String) → ℤ → List String → List String
  unfolding rename_input
  rename_inputs renames c [] = []
  rename_inputs renames c (i ∷ is) = rename_input renames c i ∷ rename_inputs renames c is

  -- the body of the loop, for a node that has a cluster
  unfoldable pub copy_node :
      Graph → List ((ℤ × (String × ℤ)) × String) → ℤ → Node → ClusterManager → Status ClusterManager
  unfolding gather_inputs input_names rename_inputs add_node
  copy_node g renames c n m = do
    inputs ← gather_inputs g c n.id g.edges (nulls n.num_inputs)
    add_node c
        (record {
          name = n.name;
          op = n.type_string;
          inputs = rename_inputs renames c (input_names g (requested_inputs n) inputs);
          attrs = n.attrs;
        })
        m

  unfoldable pub copy_nodes :
      Graph
      → List ((ℤ × (String × ℤ)) × String)
      → List Node
      → ClusterManager
      → Status ClusterManager
  unfolding get_node_cluster copy_node
  copy_nodes g renames [] m = ok m
  copy_nodes g renames (n ∷ ns) m = elim (get_node_cluster n) [
    | none ↦ copy_nodes g renames ns m
    | some c ↦ do m' ← copy_node g renames c n m; copy_nodes g renames ns m'
  ]
