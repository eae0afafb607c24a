-- ===== src/Tests/Unpacking.antt =====
-- A run of the handler of Unpack.
use ngraph.Prelude.{
  ℕ, String, ◌≡◌, refl, true, false, ◌==◌, string_eq, List, [], ◌∷◌, ◌++◌, lookup, assign, length,
}
use ngraph.Prelude.Int.{ℤ, pos}
use ngraph.Prelude.Status.{Status, ok}
use ngraph.Graph.{
  int, Node, Graph, node_at, find_node, get_int, find_input, input_edges, input_edges_from,
}
use ngraph.Builder.Chain
use ngraph.Builder.Inputs.{
  OpMap, entry, require, validate_input_count, input_node, save_ng_op, get_input_node,
}
use ngraph.Builder.Parts.{rounds}
use ngraph.Builder.Shaped.{index_vector}
use ngraph.Builder.Stacks.{translate_unpack_op, save_slices, unpack_slice}
use ngraph.Builder.Unpacked.{AreParts, translate_unpack_op-slices}
use ngraph.Tests.Translation.{named, arg_node, wire}
use ngraph.Tests.Encapsulation.{is_ok, value, is_ok-eq}

abbrev unpack_node : Node
unpack_node = record {
  id = 3;
  name = "parts";
  type_string = "Unpack";
  num_inputs = 1;
  device = "";
  attrs = ("axis", int (pos 0)) ∷ ("num", int (pos 2)) ∷ [];
}

abbrev unpack_graph : Graph
unpack_graph = record { nodes = arg_node ∷ unpack_node ∷ []; edges = wire 0 2 3 ∷ [] }

abbrev before : OpMap String
before = ("ngraph_input_0", "Parameter" ∷ []) ∷ []

abbrev run : Status (OpMap String)
run = translate_unpack_op named unpack_graph [] unpack_node before

unfoldable after : OpMap String
unfolding translate_unpack_op
after = value [] run

runs : is_ok run ≡ true
unfolding translate_unpack_op save_slices unpack_slice index_vector get_input_node input_edges
    input_edges_from find_input input_node save_ng_op validate_input_count get_int lookup assign
    node_at find_node Chain.◌>>=◌
runs = refl

after-eq : run ≡ ok after
unfolding after
after-eq = is_ok-eq [] run runs

two_parts : entry after "parts" ≡ "StridedSlice" ∷ "StridedSlice" ∷ []
unfolding after translate_unpack_op save_slices unpack_slice index_vector get_input_node input_edges
    input_edges_from find_input input_node save_ng_op validate_input_count get_int lookup assign
    node_at find_node Chain.◌>>=◌
two_parts = refl

translate_unpack_op-slices_example :
    (x : String) × (tf_axis : ℤ) × (num : ℤ) × (s : List ℕ) × (vs : List String) × (get_input_node
        unpack_graph before unpack_node 0
      ≡ ok x)
    × (require unpack_node "axis" get_int ≡ ok tf_axis)
    × (require unpack_node "num" get_int ≡ ok num)
    × (named.get_shape x ≡ ok s)
    × (entry after "parts" ≡ entry before "parts" ++ vs)
    × (length vs ≡ rounds named num)
    × AreParts named x s tf_axis vs
    × ((k : String) → (k == "parts") ≡ false → lookup k after ≡ lookup k before)
translate_unpack_op-slices_example =
    translate_unpack_op-slices named unpack_graph [] unpack_node before after after-eq
