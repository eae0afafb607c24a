-- ===== src/Encapsulator/Flow.antt =====
-- The first two passes of Encapsulator::AnalysisPass in ngraph_bridge/encapsulate_clusters.cc: the
-- devices of the clusters, and the inputs and outputs that the edges between clusters need.
use ngraph.Prelude.{
  ℕ, suc, String, Bool, true, false, not, ◌&&◌, ◌||◌, Option, none, some, List, [], ◌∷◌, ◌++◌, ◌==◌,
  nat_eq, string_eq, pair_eq, if◌then◌else◌, lookup, assign, update, length, set, decimal, str_cat,
}
use ngraph.Prelude.Int.{ℤ, pos, negsuc, int_eq}
use ngraph.Prelude.Status.{Status, ok, err, internal, fatal, ◌>>=◌}
use ngraph.Graph.{DataType, Node, Edge, Graph, int, text, dtype, is_op, is_control_edge, node_at}
use ngraph.ClusterManager.{NodeDef, ClusterManager, get_cluster_graph}
use ngraph.Assign.Tag.{get_node_cluster}
use ngraph.Encapsulator.{Encapsulator, cluster_idx, is_clustered}

-- pass 1
unfoldable pub populate_devices : List Node → List (ℤ × String) → Status (List (ℤ × String))
unfolding get_node_cluster lookup assign
populate_devices [] m = ok m
populate_devices (n ∷ ns) m = elim (get_node_cluster n) [
  | none ↦ populate_devices ns m
  | some c ↦ elim (lookup c m) [
    | none ↦ populate_devices ns (assign c n.device m)
    | some d ↦ elim (d == n.device) [ true ↦ populate_devices ns m | false ↦ err internal ]
  ]
]

-- `GetClusterGraph(idx)->add_node()`: outside of the table the pointer is null.
unfoldable pub add_node : ℤ → NodeDef → ClusterManager → Status ClusterManager
unfolding get_cluster_graph
add_node (negsuc i) def m = err fatal
add_node (pos i) def m = elim (get_cluster_graph m i) [
  | none ↦ err fatal
  | some g ↦ ok (record { cluster_graphs = set m.cluster_graphs i (g ++ def ∷ []) })
]

-- the variables of AnalysisPass that pass 2 writes, beside the members
pub record Flow : Type 0 where
  pub enc : Encapsulator
  pub retval_index_count : ℤ → ℕ
  pub arg_index_count : ℤ → ℕ
  pub count_arg : ℕ
  pub count_retval : ℕ
  pub count_both_arg_retval : ℕ
  pub count_free : ℕ
  pub count_encapsulated : ℕ
  pub count_tot : ℕ

abbrev pub output_name : ℕ → String
output_name k = str_cat ("ngraph_output_" ∷ decimal k ∷ [])

abbrev pub input_name : ℕ → String
input_name k = str_cat ("ngraph_input_" ∷ decimal k ∷ [])

-- a slot on a stream
abbrev pub slot_text : ℤ → String
slot_text (pos n) = decimal n
slot_text (negsuc n) = str_cat ("-" ∷ decimal (suc n) ∷ [])

-- the node that returns an output of the cluster
unfoldable pub retval_def : ℕ → Node → ℤ → DataType → ℕ → NodeDef
retval_def k src slot dt index = record {
  name = output_name k;
  op = "_Retval";
  inputs = str_cat (src.name ∷ ":" ∷ slot_text slot ∷ []) ∷ [];
  attrs = ("T", dtype dt) ∷ ("index", int (pos index)) ∷ [];
}

-- the node that stands for an input of the cluster
unfoldable pub arg_def : ℕ → Node → DataType → ℕ → NodeDef
arg_def k src dt index = record {
  name = input_name k;
  op = "_Arg";
  inputs = [];
  attrs = ("T", dtype dt) ∷ ("index", int (pos index)) ∷ ("_prov_tag", text src.name) ∷ [];
}

abbrev pub is_absent {ℓ} : {A : Type ℓ} → Option A → Bool
is_absent none = true
is_absent (some a) = false

unfoldable pub needs_retval : Node → ℤ → Encapsulator → Bool
unfolding is_clustered lookup
needs_retval src slot e = is_clustered src && is_absent (lookup (src.id, slot) e.output_remap_map)

unfoldable pub needs_arg : Node → ℤ → Node → Encapsulator → Bool
unfolding is_clustered cluster_idx lookup
needs_arg src slot dst e =
    is_clustered dst && is_absent (lookup (cluster_idx dst, (src.id, slot)) e.input_remap_map)

-- the writes of the new output to the maps
unfoldable pub record_retval : Node → ℤ → DataType → ClusterManager → Flow → Flow
unfolding cluster_idx assign
record_retval src slot dt m f =
    let e = f.enc in
    let c = cluster_idx src in
    let outputs = e.cluster_output_dt_map c in
    record f {
      enc = record e {
        output_remap_map = assign (src.id, slot) (c, length outputs) e.output_remap_map;
        cluster_output_dt_map = update e.cluster_output_dt_map c (outputs ++ dt ∷ []);
        manager = m;
      };
      retval_index_count = update f.retval_index_count c (suc (f.retval_index_count c));
    }

unfoldable pub add_retval : Node → ℤ → DataType → Flow → Status Flow
unfolding cluster_idx add_node retval_def record_retval
add_retval src slot dt f =
    let c = cluster_idx src in
    let k = length (f.enc.cluster_output_dt_map c) in
    do
      m ← add_node c (retval_def k src slot dt (f.retval_index_count c)) f.enc.manager
      ok (record_retval src slot dt m f)

-- the writes of the new input to the maps
unfoldable pub record_arg : Node → ℤ → Node → DataType → ClusterManager → Flow → Flow
unfolding cluster_idx assign
record_arg src slot dst dt m f =
    let e = f.enc in
    let c = cluster_idx dst in
    let inputs = e.cluster_input_map c in
    record f {
      enc = record e {
        input_remap_map = assign (c, (src.id, slot)) (length inputs) e.input_remap_map;
        input_rename_map =
            assign (c, (src.name, slot)) (input_name (length inputs)) e.input_rename_map;
        cluster_input_map = update e.cluster_input_map c (inputs ++ ((src.id, slot), dt) ∷ []);
        manager = m;
      };
      arg_index_count = update f.arg_index_count c (suc (f.arg_index_count c));
    }

unfoldable pub add_arg : Node → ℤ → Node → DataType → Flow → Status Flow
unfolding cluster_idx add_node arg_def record_arg
add_arg src slot dst dt f =
    let c = cluster_idx dst in
    let k = length (f.enc.cluster_input_map c) in
    do
      m ← add_node c (arg_def k src dt (f.arg_index_count c)) f.enc.manager
      ok (record_arg src slot dst dt m f)

-- the counters of the log; `api::IsLoggingPlacement` guards the last three
unfoldable pub count_flow : Bool → Bool → Bool → Flow → Flow
count_flow logging is_arg is_retval f =
    if logging
    then if is_arg && is_retval
      then record f { count_both_arg_retval = suc f.count_both_arg_retval }
      else if is_arg
      then record f { count_arg = suc f.count_arg }
      else record f { count_retval = suc f.count_retval }
    else f

unfoldable pub new_flow : Encapsulator → Flow
new_flow e = record {
  enc = e;
  retval_index_count = λ c. 0;
  arg_index_count = λ c. 0;
  count_arg = 0;
  count_retval = 0;
  count_both_arg_retval = 0;
  count_free = 0;
  count_encapsulated = 0;
  count_tot = 0;
}

-- an edge whose ends are not both in one cluster and not both outside
unfoldable pub crosses : Graph → Edge → Bool
unfolding is_control_edge is_op node_at cluster_idx
crosses g e =
    not (is_control_edge e)
    && (is_op e.src
        && (is_op e.dst && not (cluster_idx (node_at g e.dst) == cluster_idx (node_at g e.src))))

-- `input_type`: the type of an input of a node, by TensorFlow
module _ (input_type : Node → ℤ → DataType) (logging : Bool) where
  -- the body of the loop of pass 2 after its guards
  unfoldable pub visit_flow : Node → Node → Edge → Flow → Status Flow
  unfolding needs_retval needs_arg add_retval add_arg count_flow
  visit_flow src dst e f =
      let dt = input_type dst e.dst_input in
      let is_retval = needs_retval src e.src_output f.enc in
      do
        f₁ ← elim is_retval [ true ↦ add_retval src e.src_output dt f | false ↦ ok f ]
        f₂ ← elim (needs_arg src e.src_output dst f₁.enc) [
          | true ↦ add_arg src e.src_output dst dt f₁
          | false ↦ ok f₁
        ]
        ok (count_flow logging (needs_arg src e.src_output dst f₁.enc) is_retval f₂)

  unfoldable pub visit_edge : Graph → Edge → Flow → Status Flow
  unfolding is_control_edge is_op node_at cluster_idx visit_flow
  visit_edge g e f =
      let src = node_at g e.src in
      let dst = node_at g e.dst in
      let f' : Flow = record f { count_tot = suc f.count_tot } in
      elim (is_control_edge e || (not (is_op e.src) || not (is_op e.dst))) [
        | true ↦ ok (record f' { count_free = suc f.count_free })
        | false ↦ elim (cluster_idx dst == cluster_idx src) [
          | true ↦ ok (record f' { count_encapsulated = suc f.count_encapsulated })
          | false ↦ visit_flow src dst e f'
        ]
      ]

  unfoldable pub visit_edges : Graph → List Edge → Flow → Status Flow
  unfolding visit_edge
  visit_edges g [] f = ok f
  visit_edges g (e ∷ es) f = do f' ← visit_edge g e f; visit_edges g es f'
