-- ===== src/Encapsulator/Rewrite.antt =====
-- Encapsulator::RewritePass of ngraph_bridge/encapsulate_clusters.cc. TensorFlow's edits of a graph
-- are a parameter.
use ngraph.Prelude.{
  ℕ, String, true, false, Option, none, some, List, [], ◌∷◌, ◌++◌, map, ◌==◌, nat_eq, string_eq,
  pair_eq, if◌then◌else◌, lookup, update, str_cat,
}
use ngraph.Prelude.Int.{ℤ, pos, negsuc, ltb_ℤ, int_eq}
use ngraph.Prelude.Status.{Status, ok, err, internal, fatal, ◌>>=◌}
use ngraph.Graph.{
  AttrValue, int, ints, text, dtypes, Node, Edge, Graph, is_control_edge, node_at, update_node,
}
use ngraph.ClusterManager.{GraphDef, ClusterManager, get_cluster_graph}
use ngraph.Mark.Arguments.{graph_static_inputs}
use ngraph.Encapsulator.{Encapsulator, Output, cluster_idx, is_clustered, op_nodes}
use ngraph.Encapsulator.Flow.{slot_text}

-- the entries of a `std::map<int, ...>` in the order in which it goes through them
abbrev pub insert_entry {ℓ} : {A : Type ℓ} → ℤ × A → List (ℤ × A) → List (ℤ × A)
insert_entry x [] = x ∷ []
insert_entry x (y ∷ ys) =
    let rest = insert_entry x ys in if ltb_ℤ y.0 x.0 then y ∷ rest else x ∷ y ∷ ys

abbrev pub in_key_order {ℓ} : {A : Type ℓ} → List (ℤ × A) → List (ℤ × A)
in_key_order [] = []
in_key_order (x ∷ xs) = insert_entry x (in_key_order xs)

-- what is given to the NodeBuilder
pub record NodeSpec : Type 0 where
  pub name : String
  pub type_string : String
  pub device : String
  pub inputs : List Output
  pub attrs : List (String × AttrValue)

-- A control edge may be added from or to a node by its pointer. `finalize` returns the new node's.
pub record GraphEdits : Type 0 where
  pub convert_graph_def_to_graph : GraphDef → Status Graph
  pub finalize : NodeSpec → Graph → Status (ℕ × Graph)
  pub remove_control_edge : Edge → Graph → Graph
  pub add_control_edge : ℕ → ℕ → Graph → Graph
  pub update_edge : ℕ → ℕ → ℕ → ℤ → Graph → Status Graph
  pub remove_node : ℕ → Graph → Graph

unfoldable pub encap_node_name : ℤ → String
encap_node_name c = str_cat ("ngraph_cluster_" ∷ slot_text c ∷ [])

unfoldable pub cluster_graph_at : ClusterManager → ℤ → Option GraphDef
unfolding get_cluster_graph
cluster_graph_at m (pos i) = get_cluster_graph m i
cluster_graph_at m (negsuc i) = none

abbrev pub config_attrs : List (String × String) → List (String × AttrValue)
config_attrs config = map (λ kv. (kv.0, text kv.1)) config

unfoldable pub encap_spec :
    ℤ → ℤ → String → List (String × String) → List ℤ → Encapsulator → NodeSpec
unfolding encap_node_name
encap_spec graph_id c device config statics e = record {
  name = encap_node_name c;
  type_string = "_nGraphEncapsulate";
  device = device;
  inputs = map (λ i. i.0) (e.cluster_input_map c);
  attrs =
      ("ngraph_cluster", int c)
        ∷ ("Targuments", dtypes (map (λ i. i.1) (e.cluster_input_map c)))
        ∷ ("Tresults", dtypes (e.cluster_output_dt_map c))
        ∷ ("ngraph_graph_id", int graph_id)
        ∷ config_attrs config
      ++ ("_ngraph_static_inputs", ints statics) ∷ [];
}

unfoldable pub set_device : String → Node → Node
set_device device n = record n { device = device }

-- a missing pointer is null, which the edit would dereference
abbrev pub deref : Option ℕ → Status ℕ
deref none = err fatal
deref (some v) = ok v

-- an end of a control edge after pass 4
unfoldable pub control_end : Encapsulator → ℕ → Status ℕ
unfolding is_clustered cluster_idx node_at
control_end e v = elim (is_clustered (node_at e.graph v)) [
  | true ↦ deref (e.cluster_node_map (cluster_idx (node_at e.graph v)))
  | false ↦ ok v
]

-- the writes after the node is built
unfoldable pub install : ℤ → String → Encapsulator → ℕ × Graph → Encapsulator
unfolding update_node set_device
install c device e built = record e {
  graph = update_node built.1 built.0 (set_device device);
  cluster_node_map = update e.cluster_node_map c (some built.0);
}

module _ (edits : GraphEdits) where
  unfoldable pub static_inputs_of : GraphDef → Status (List ℤ)
  unfolding graph_static_inputs
  static_inputs_of gdef = edits.convert_graph_def_to_graph gdef >>= graph_static_inputs

  -- the body of the loop of pass 3
  unfoldable pub create_encapsulate :
      ℤ → List (String × String) → ℤ → String → Encapsulator → Status Encapsulator
  unfolding cluster_graph_at static_inputs_of encap_spec install
  create_encapsulate graph_id config c device e = elim (cluster_graph_at e.manager c) [
    | none ↦ err internal
    | some gdef ↦ do
      statics ← static_inputs_of gdef
      built ← edits.finalize (encap_spec graph_id c device config statics e) e.graph
      ok (install c device e built)
  ]

  -- pass 3, over the entries of a `std::map`
  unfoldable pub create_encapsulates :
      ℤ → List (String × String) → List (ℤ × String) → Encapsulator → Status Encapsulator
  unfolding create_encapsulate
  create_encapsulates graph_id config [] e = ok e
  create_encapsulates graph_id config ((c, device) ∷ rest) e =
      create_encapsulate graph_id config c device e >>= create_encapsulates graph_id config rest

  -- the body of the loop of pass 4
  unfoldable pub remap_edge : Edge → Encapsulator → Status Encapsulator
  unfolding is_clustered cluster_idx node_at is_control_edge control_end lookup
  remap_edge edge e =
      let src = node_at e.graph edge.src in
      let dst = node_at e.graph edge.dst in
      elim (cluster_idx src == cluster_idx dst) [
        | true ↦ ok e
        | false ↦ elim (is_control_edge edge) [
          | true ↦ do
            s ← control_end e edge.src
            d ← control_end e edge.dst
            ok (record e {
              graph = edits.add_control_edge s d (edits.remove_control_edge edge e.graph);
            })
          | false ↦ elim (is_clustered dst) [
            | true ↦ ok e
            | false ↦ elim (lookup (edge.src, edge.src_output) e.output_remap_map) [
              | none ↦ ok e
              | some (c, k) ↦ do
                v ← deref (e.cluster_node_map c)
                g ← edits.update_edge v k edge.dst edge.dst_input e.graph
                ok (record e { graph = g })
            ]
          ]
        ]
      ]

  unfoldable pub remap_edges : List Edge → Encapsulator → Status Encapsulator
  unfolding remap_edge
  remap_edges [] e = ok e
  remap_edges (edge ∷ edges) e = remap_edge edge e >>= remap_edges edges

  -- pass 6
  unfoldable pub remove_clustered : List Node → Graph → Graph
  unfolding is_clustered
  remove_clustered [] g = g
  remove_clustered (n ∷ ns) g =
      remove_clustered ns (if is_clustered n then edits.remove_node n.id g else g)

  unfoldable pub finish_rewrite : Encapsulator → Encapsulator
  unfolding remove_clustered op_nodes
  finish_rewrite e = record e {
    graph = remove_clustered (op_nodes e.graph) e.graph;
    rewrite_done = true;
  }

  unfoldable pub rewrite_pass : ℤ → List (String × String) → Encapsulator → Status Encapsulator
  unfolding create_encapsulates remap_edges finish_rewrite
  rewrite_pass graph_id config e = elim e.analysis_done [
    | false ↦ err internal
    | true ↦ elim e.rewrite_done [
      | true ↦ err internal
      | false ↦ do
        e₁ ← create_encapsulates graph_id config (in_key_order e.device_name_map) e
        e₂ ← remap_edges e₁.graph.edges e₁
        ok (finish_rewrite e₂)
    ]
  ]
