-- ===== src/Mark/Access.antt =====
-- Reading back the marks: NodeIsMarkedForClustering, GetStaticInputs and InputIsStatic of
-- ngraph_bridge/mark_for_clustering.cc.
use ngraph.Prelude.{Bool, false, none, some, List, [], contains}
use ngraph.Prelude.Int.{ℤ, int_eq}
use ngraph.Graph.{Node, get_flag, get_ints}

unfoldable pub node_is_marked_for_clustering : Node → Bool
unfolding get_flag
node_is_marked_for_clustering n = elim (get_flag n "_ngraph_marked_for_clustering") [
  | some is_marked ↦ is_marked
  | none ↦ false
]

-- the overload for one node
unfoldable pub get_static_inputs : Node → List ℤ
unfolding get_ints
get_static_inputs n = elim (get_ints n "_ngraph_static_inputs") [ some inputs ↦ inputs | none ↦ [] ]

unfoldable pub input_is_static : Node → ℤ → Bool
unfolding get_static_inputs contains
input_is_static n index = contains (get_static_inputs n) index
