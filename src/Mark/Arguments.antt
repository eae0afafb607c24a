-- ===== src/Mark/Arguments.antt =====
-- GetStaticInputs of a cluster's graph, ngraph_bridge/mark_for_clustering.cc: the arguments of the
-- cluster that are static.
use ngraph.Prelude.{
  ℕ, Bool, true, false, not, ◌&&◌, ◌||◌, none, some, List, [], ◌∷◌, ◌==◌, nat_eq, string_eq,
}
use ngraph.Prelude.Int.{ℤ, int_eq}
use ngraph.Prelude.Status.{Status, ok, err, internal, ◌>>=◌}
use ngraph.Graph.{Node, Edge, Graph, is_op, is_control_edge, get_int, node_at}
use ngraph.Mark.Access.{input_is_static}

-- The test of one edge in the loop over `node->out_edges()`.
unfoldable pub is_static_edge : Graph → ℕ → Edge → Bool
unfolding is_control_edge is_op node_at input_is_static
is_static_edge g v e =
    e.src == v
    && (not (is_control_edge e || not (is_op e.dst))
        && input_is_static (node_at g e.dst) e.dst_input)

-- the loop, which stops at the first static edge
unfoldable pub has_static_edge : Graph → ℕ → List Edge → Bool
unfolding is_static_edge
has_static_edge g v [] = false
has_static_edge g v (e ∷ es) = is_static_edge g v e || has_static_edge g v es

unfoldable pub static_arguments : Graph → List Node → Status (List ℤ)
unfolding get_int has_static_edge
static_arguments g [] = ok []
static_arguments g (n ∷ ns) = elim (n.type_string == "_Arg") [
  | false ↦ static_arguments g ns
  | true ↦ elim (get_int n "index") [
    | none ↦ err internal
    | some i ↦ do
      rest ← static_arguments g ns
      ok (elim (has_static_edge g n.id g.edges) [ true ↦ i ∷ rest | false ↦ rest ])
  ]
]

unfoldable pub graph_static_inputs : Graph → Status (List ℤ)
unfolding static_arguments
graph_static_inputs g = static_arguments g g.nodes
