-- ===== src/Tests/Passes.antt =====
-- Runs of the marking and of the deassignment pass.
use ngraph.Prelude.{
  ℕ, String, ◌≡◌, refl, Bool, true, false, ◌||◌, ◌&&◌, none, some, List, [], ◌∷◌, if◌then◌else◌,
  nat_eq, string_eq, contains, remove, lookup, assign, insert, count,
}
use ngraph.Prelude.Int.{ℤ, pos}
use ngraph.Prelude.Status.{ok, err, internal}
use ngraph.Graph.{
  Node, Graph, AttrValue, ids, is_op, node_at, find_node, dtype, int, flag, dt_float, dt_int32,
  get_dtype, get_flag, get_int, add_attr, clear_attr, update_node,
}
use ngraph.Mark.Access.{node_is_marked_for_clustering, get_static_inputs}
use ngraph.Mark.Types.{get_type_constraint_map, all_allowed, is_allowed, type_constraint_ok}
use ngraph.Mark.Confirm.{get_confirmation_map, confirm, confirmation_ok}
use ngraph.Mark.Pass.{
  fresh, same_set, disable, refresh, check_if_output_node, ngraph_placement_requested, accepts,
  select, mark_node, set_attributes, mark_nodes, mark_for_clustering,
}
use ngraph.Mark.Statics.{set_static_inputs, get_attribute_setters}
use ngraph.Mark.Marked.{statics_once_marked, mark_for_clustering-marks}
use ngraph.Mark.Disabled.{refresh-lookup, refresh-again, IsWithin}
use ngraph.Mark.Handled.{mark_for_clustering-handler_of}
use ngraph.Builder.Handlers.{handler_of}
use ngraph.Assign.Moves.{marked}
use ngraph.Assign.Tagged.{cluster_at}
use ngraph.Assign.Tag.{get_node_cluster}
use ngraph.Deassign.{
  is_small, deassign_clusters, bust_clusters, bust, bust_node, non_trivial_count, cluster_members,
  nodes_with_cluster,
}
use ngraph.Deassign.Filed.{NoRepeat, belongs}
use ngraph.Deassign.Kept.{deassign_clusters-kept}

abbrev op : ℕ → String → ℕ → List (String × AttrValue) → Node
op i kind inputs attrs = record {
  id = i;
  name = "n";
  type_string = kind;
  num_inputs = inputs;
  device = "";
  attrs = attrs;
}

abbrev unmarked : Graph
unmarked = record {
  nodes =
      op 0 "NoOp" 0 []
      ∷ op 1 "NoOp" 0 []
      ∷ op 2 "Relu" 1 (("T", dtype dt_float) ∷ [])
      ∷ op 3 "Reshape" 2 (("T", dtype dt_float) ∷ ("Tshape", dtype dt_int32) ∷ [])
      ∷ op 4 "Abs" 1 (("T", dtype dt_float) ∷ [])
      ∷ [];
  edges = [];
}

abbrev supported : String → Bool
supported kind = true

abbrev disabled : List String
disabled = "Abs" ∷ []

is_marked :
    (mark_for_clustering supported [] disabled unmarked fresh).0
    ≡ ok (mark_nodes (2 ∷ 3 ∷ []) unmarked)
unfolding mark_for_clustering refresh disable same_set select accepts check_if_output_node
    ngraph_placement_requested confirmation_ok confirm get_confirmation_map type_constraint_ok
    get_type_constraint_map all_allowed is_allowed get_dtype lookup remove contains node_at
    find_node is_op
is_marked = refl

known : contains (ids unmarked) 3 ≡ true
unfolding contains
known = refl

abbrev marked_graph : Graph
marked_graph = mark_nodes (2 ∷ 3 ∷ []) unmarked

mark_for_clustering-marks_example :
    (ids marked_graph ≡ ids unmarked)
    × ((v : ℕ)
        → contains (ids unmarked) v ≡ true
        → (answer : Bool) × (is_op v ≡ true
            → accepts supported []
                (refresh disabled fresh).1.confirmation_function_map
                (node_at unmarked v)
              ≡ ok answer)
          × (is_op v ≡ false → answer ≡ false)
          × (node_is_marked_for_clustering (node_at marked_graph v)
              ≡ (answer || node_is_marked_for_clustering (node_at unmarked v)))
          × (get_static_inputs (node_at marked_graph v) ≡ (
              if answer
              then statics_once_marked (node_at unmarked v)
              else get_static_inputs (node_at unmarked v))))
mark_for_clustering-marks_example =
    mark_for_clustering-marks supported [] disabled unmarked marked_graph fresh is_marked

within : IsWithin fresh
within = record { within = λ k h. h }

three_unmarked : node_is_marked_for_clustering (node_at unmarked 3) ≡ false
unfolding node_is_marked_for_clustering get_flag lookup node_at find_node
three_unmarked = refl

three_marked : node_is_marked_for_clustering (node_at marked_graph 3) ≡ true
unfolding node_is_marked_for_clustering get_flag lookup node_at find_node mark_nodes mark_node
    set_attributes set_static_inputs get_attribute_setters add_attr assign update_node
three_marked = refl

three_is_op : is_op 3 ≡ true
unfolding is_op
three_is_op = refl

mark_for_clustering-handler_of_example :
    (handler : String) × (handler_of (node_at unmarked 3).type_string ≡ ok handler)
mark_for_clustering-handler_of_example =
    mark_for_clustering-handler_of supported [] disabled unmarked marked_graph fresh within
      is_marked 3 known three_is_op three_unmarked three_marked

differs : same_set disabled fresh.disabled_ops_set ≡ false
unfolding same_set
differs = refl

accepted : (refresh disabled fresh).0 ≡ ok tt
unfolding refresh disable same_set lookup remove get_confirmation_map
accepted = refl

refresh-lookup_example :
    lookup "Abs" (refresh disabled fresh).1.confirmation_function_map
    ≡ (if contains disabled "Abs" then none else lookup "Abs" get_confirmation_map)
refresh-lookup_example = refresh-lookup disabled fresh "Abs" differs accepted

-- A set with an unknown op is refused, and then accepted with its other op still enabled.
refused_once : (refresh ("Foo" ∷ "Relu" ∷ []) fresh).0 ≡ err internal
unfolding refresh disable same_set lookup remove get_confirmation_map
refused_once = refl

refresh-again_example :
    refresh ("Foo" ∷ "Relu" ∷ []) (refresh ("Foo" ∷ "Relu" ∷ []) fresh).1
    ≡ (ok tt, (refresh ("Foo" ∷ "Relu" ∷ []) fresh).1)
refresh-again_example = refresh-again ("Foo" ∷ "Relu" ∷ []) fresh

abbrev tagged : ℕ → List (String × AttrValue)
tagged c = ("_ngraph_marked_for_clustering", flag true) ∷ ("_ngraph_cluster", int (pos c)) ∷ []

abbrev clustered : Graph
clustered = record {
  nodes = op 2 "Relu" 1 (tagged 0) ∷ op 3 "Abs" 1 (tagged 0) ∷ op 4 "Const" 0 (tagged 1) ∷ [];
  edges = [];
}

four_known : contains (ids clustered) 4 ≡ true
unfolding contains
four_known = refl

-- with a minimum of two, the constant's cluster goes and the other one stays
runs :
    (cluster_at (deassign_clusters false (some (pos 2)) clustered).graph 4 ≡ none)
    × (cluster_at (deassign_clusters false (some (pos 2)) clustered).graph 3 ≡ some (pos 0))
unfolding deassign_clusters bust_clusters is_small non_trivial_count bust bust_node clear_attr
    cluster_members nodes_with_cluster get_node_cluster get_int lookup assign remove insert contains
    count node_at find_node update_node
runs = (refl, refl)

deassign_clusters-kept_example :
    ((c : ℤ)
      → cluster_at clustered 4 ≡ some c
      → (nodes : List ℕ) × NoRepeat nodes
        × ((w : ℕ) → contains nodes w ≡ (contains (ids clustered) w && belongs clustered c w))
        × (cluster_at (deassign_clusters false (some (pos 2)) clustered).graph 4
            ≡ (if is_small (some (pos 2)) clustered nodes then none else some c))
        × (marked (deassign_clusters false (some (pos 2)) clustered).graph 4
            ≡ (if is_small (some (pos 2)) clustered nodes then false else marked clustered 4)))
    × (cluster_at clustered 4 ≡ none
        → (cluster_at (deassign_clusters false (some (pos 2)) clustered).graph 4 ≡ none)
          × (marked (deassign_clusters false (some (pos 2)) clustered).graph 4
              ≡ marked clustered 4))
deassign_clusters-kept_example = deassign_clusters-kept (some (pos 2)) clustered 4 four_known
