-- ===== src/Tests/Translation.antt =====
-- Runs of the translator, with a library whose values are the names of their classes.
use ngraph.Prelude.{
  ℕ, ◌<◌, String, ◌≡◌, refl, ap, true, false, Bool, none, some, List, [], ◌∷◌, ◌++◌, ◌==◌, nat_eq,
  string_eq, lookup, assign, get_elem?, inl, inr, In, arith,
}
use ngraph.Prelude.Int.{ℤ, pos, negsuc, int_eq, ◌+ℤ◌}
use ngraph.Prelude.Words.{to_int, to_size_t}
use ngraph.Prelude.Status.{Status, ok, err, unimplemented, invalid_argument, ◌>>=◌}
use ngraph.Graph.{
  is_retval, dt_float, dtype, int, Node, Edge, Graph, is_op, node_at, find_node, get_int, get_dtype,
  get_text, find_input, input_edges, input_edges_from,
}
use ngraph.Builder.Library.{Library, ElementType, to_element_type}
use ngraph.Builder.Chain
use ngraph.Builder.Inputs.{
  OpMap, entry, validate_input_count, input_node, save_ng_op, get_input_node, one_input,
  check_axis_dim_in_range,
}
use ngraph.Builder.Handlers.{handler_of, translate_op_map}
use ngraph.Builder.Elementwise.{Handler, translate_unary_op, translate_unary_with}
use ngraph.Builder.Shaped.{from_right}
use ngraph.Builder.Parts.{split_lengths, scan_lengths, fill_length, is_wrong}
use ngraph.Builder.Dispatch.{modelled_handlers, handler_named, translate_op}
use ngraph.Builder.Translate.{
  Function, add_kind, put_at, split_nodes, add_parameters, translate_ops, result_of, add_results,
  translate_graph,
}
use ngraph.Builder.Saves.{Adds, Saves-err}
use ngraph.Builder.Frame.{IsSaving}
use ngraph.Builder.Framed.{translate_op-Adds}
use ngraph.Builder.Grown.{translate_ops-entry}
use ngraph.Builder.Axes.{check_axis_dim_in_range-from_right}
use ngraph.Builder.Scanned.{sum, Fits}
use ngraph.Builder.Lengths.{split_lengths-first, split_lengths-sum}
use ngraph.Builder.Translated.{IsTranslated, translate_graph-refused, translate_graph-result}
use ngraph.Tests.Encapsulation.{is_ok, value, is_ok-eq}

abbrev pub named : Library
named = record {
  Value = String;
  Tensor = List ℤ;
  construct = λ kind vs args. ok kind;
  output = λ v i. v;
  get_shape = λ v. ok (2 ∷ []);
  get_element_type = λ v. ElementType.f32;
  dtype = λ t. dt_float;
  flat = λ t. t;
  from_proto = λ n. none;
}

abbrev pub arg_node : Node
arg_node = record {
  id = 2;
  name = "ngraph_input_0";
  type_string = "_Arg";
  num_inputs = 0;
  device = "";
  attrs = ("T", dtype dt_float) ∷ ("index", int (pos 0)) ∷ [];
}

abbrev abs_node : Node
abs_node = record {
  id = 3;
  name = "a";
  type_string = "Abs";
  num_inputs = 1;
  device = "";
  attrs = [];
}

abbrev ret_node : Node
ret_node = record {
  id = 4;
  name = "ngraph_output_0";
  type_string = "_Retval";
  num_inputs = 1;
  device = "";
  attrs = ("T", dtype dt_float) ∷ ("index", int (pos 0)) ∷ [];
}

abbrev pub wire : ℕ → ℕ → ℕ → Edge
wire i s d = record { id = i; src = s; src_output = pos 0; dst = d; dst_input = pos 0 }

abbrev abs_graph : Graph
abs_graph = record {
  nodes = arg_node ∷ abs_node ∷ ret_node ∷ [];
  edges = wire 0 2 3 ∷ wire 1 3 4 ∷ [];
}

abbrev no_others : String → Handler named
no_others name g statics op m = err unimplemented

no_others-IsSaving : (name : String) → IsSaving named (no_others name)
no_others-IsSaving name g statics op m = Saves-err unimplemented

abbrev never : Node → Bool
never n = false

abbrev in_order : Graph → List Node
in_order g = g.nodes

abbrev empty_function : Function String
empty_function = record { results = []; parameters = [] }

abbrev translation : Status (Function String)
translation = translate_graph named never in_order no_others ((2 ∷ []) ∷ []) [] abs_graph

unfoldable built : Function String
unfolding translate_graph
built = value empty_function translation

builds : is_ok translation ≡ true
unfolding translate_graph split_nodes add_kind add_parameters put_at translate_ops translate_op
    handler_named modelled_handlers handler_of translate_op_map result_of add_results get_input_node
    input_edges input_edges_from find_input input_node save_ng_op one_input validate_input_count
    translate_unary_op translate_unary_with to_element_type get_dtype get_int get_text lookup assign
    is_op node_at find_node Chain.◌>>=◌
builds = refl

built-eq : translation ≡ ok built
unfolding built
built-eq = is_ok-eq empty_function translation builds

-- No other `_Retval` node is in the graph.
only_ret :
    (y : Node)
    → In y (in_order abs_graph)
    → is_retval y ≡ true
    → get_int y "index" ≡ some (pos 0)
    → y ≡ ret_node
only_ret y (inl e) kind index = absurd (ground (arith, ap (λ z. is_retval z) e))
only_ret y (inr (inl e)) kind index = absurd (ground (arith, ap (λ z. is_retval z) e))
only_ret y (inr (inr (inl e))) kind index = e
only_ret y (inr (inr (inr out))) kind index = absurd (out tt)

ret_index : get_int ret_node "index" ≡ some (pos 0)
unfolding get_int lookup
ret_index = refl

ret_op : is_op 4 ≡ true
unfolding is_op
ret_op = refl

translate_graph-result_example :
    (m : OpMap String) × IsTranslated named never in_order no_others
      ((2 ∷ []) ∷ [])
      []
      abs_graph
      built
      m
    × (x v : String) × (get_input_node abs_graph m ret_node 0 ≡ ok x)
    × (named.construct "Result" (x ∷ []) [] ≡ ok v)
    × (get_elem? built.results 0 ≡ some (some v))
translate_graph-result_example =
    translate_graph-result named never in_order no_others ((2 ∷ []) ∷ []) [] abs_graph built
      ret_node 0 built-eq (inr (inr (inl refl))) ret_op refl ret_index only_ret

abbrev is_switch : Node → Bool
is_switch n = n.type_string == "Abs"

abs_op : is_op 3 ≡ true
unfolding is_op
abs_op = refl

translate_graph-refused_example :
    translate_graph named is_switch in_order no_others ((2 ∷ []) ∷ []) [] abs_graph
    ≡ err unimplemented
translate_graph-refused_example =
    translate_graph-refused named is_switch in_order no_others ((2 ∷ []) ∷ []) [] abs_graph abs_node
      (inr (inl refl)) abs_op refl

-- the op map before and after the op is translated
abbrev before : OpMap String
before = ("ngraph_input_0", "Parameter" ∷ []) ∷ []

abbrev after : OpMap String
after = ("ngraph_input_0", "Parameter" ∷ []) ∷ ("a", "Abs" ∷ []) ∷ []

translates_abs : translate_op named no_others abs_graph [] abs_node before ≡ ok after
unfolding translate_op handler_named modelled_handlers handler_of translate_op_map get_input_node
    input_edges input_edges_from find_input input_node save_ng_op one_input validate_input_count
    translate_unary_op translate_unary_with lookup assign node_at find_node Chain.◌>>=◌
translates_abs = refl

translate_op-Adds_example : Adds "a" before after
translate_op-Adds_example =
    translate_op-Adds named no_others no_others-IsSaving abs_graph [] abs_node before after
      translates_abs

translates_ops : translate_ops named no_others abs_graph [] (abs_node ∷ []) before ≡ ok after
unfolding translate_ops
translates_ops = ap (λ z. z >>= ok) translates_abs

translate_ops-entry_example :
    (vs : List String) × (entry after "ngraph_input_0" ≡ entry before "ngraph_input_0" ++ vs)
translate_ops-entry_example =
    translate_ops-entry named no_others no_others-IsSaving abs_graph [] (abs_node ∷ []) before after
      "ngraph_input_0" translates_ops

in_range : check_axis_dim_in_range (negsuc 0 ∷ pos 1 ∷ []) 3 ≡ ok tt
unfolding check_axis_dim_in_range
in_range = refl

check_axis_dim_in_range-from_right_example : (i : ℕ) × (from_right 3 (negsuc 0) ≡ pos i) × (i < 3)
check_axis_dim_in_range-from_right_example =
    check_axis_dim_in_range-from_right (negsuc 0 ∷ pos 1 ∷ []) 3 (negsuc 0) in_range (inl refl)

split_lengths-first_example : split_lengths 5 (negsuc 0 ∷ pos 2 ∷ []) ≡ err invalid_argument
split_lengths-first_example = split_lengths-first 5 (pos 2 ∷ [])

splits : split_lengths 5 (pos 2 ∷ negsuc 0 ∷ []) ≡ ok (pos 2 ∷ pos 3 ∷ [])
unfolding split_lengths scan_lengths fill_length is_wrong Chain.◌>>=◌ ◌+ℤ◌ to_int to_size_t
splits = refl

fits : Fits (pos 0) (pos 2 ∷ negsuc 0 ∷ [])
unfolding ◌+ℤ◌ to_int
fits = (refl, tt)

split_lengths-sum_example : sum (pos 2 ∷ pos 3 ∷ []) ≡ pos 5
split_lengths-sum_example =
    split_lengths-sum 5 (pos 2 ∷ negsuc 0 ∷ []) (pos 2 ∷ pos 3 ∷ []) (omega arith) fits splits

-- A dimension that no `int` holds is cut down.
cut : split_lengths 4294967301 (pos 3 ∷ negsuc 0 ∷ []) ≡ ok (pos 3 ∷ pos 2 ∷ [])
unfolding split_lengths scan_lengths fill_length is_wrong Chain.◌>>=◌ ◌+ℤ◌ to_int to_size_t
cut = refl
