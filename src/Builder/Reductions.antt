-- ===== src/Builder/Reductions.antt =====
-- The reductions of ngraph_bridge/ngraph_builder.cc, TranslateReduceOp and TranslateArgMinMax.
use ngraph.Prelude.{
  String, Bool, true, false, Option, none, some, [], ◌∷◌, ◌==◌, nat_eq, map, length,
}
use ngraph.Prelude.Int.{pos}
use ngraph.Prelude.Status.{Status, ok, err, invalid_argument}
use ngraph.Graph.{dt_int64, get_dtype, get_flag}
use ngraph.Builder.Chain.{◌>>=◌, ◌>>◌}
use ngraph.Builder.Library.{
  Library, ElementType, element, shape, number, numbers, flag, word, to_element_type,
}
use ngraph.Builder.Inputs.{require, save_ng_op, get_input_node, check_axis_dim_in_range}
use ngraph.Builder.Statics.{get_static_input_vector}
use ngraph.Builder.Elementwise.{Handler}
use ngraph.Builder.Shaped.{first, from_right, index_vector}

-- `keep_dims`, which is false unless it is there
abbrev pub or_false : Option Bool → Bool
or_false none = false
or_false (some b) = b

module _ (lib : Library) where
  unfoldable pub translate_reduce_with :
      (lib.Value → lib.Value → Bool → Status lib.Value) → Handler lib
  unfolding get_input_node get_flag get_static_input_vector check_axis_dim_in_range from_right
      index_vector save_ng_op
  translate_reduce_with create_ng_node g statics op m = do
    x ← get_input_node g m op 0
    axes ← get_static_input_vector lib dt_int64 g statics op 1
    s ← lib.get_shape x
    check_axis_dim_in_range axes (length s)
    reduction_axes ← index_vector lib (map (from_right (length s)) axes)
    v ← create_ng_node x reduction_axes (or_false (get_flag op "keep_dims"))
    ok (save_ng_op m op.name v)

  -- The test of the class of the node is settled when the program is compiled.
  unfoldable pub translate_direct_reduce_op : String → Handler lib
  unfolding translate_reduce_with
  translate_direct_reduce_op kind =
      translate_reduce_with (λ x axes keep. lib.construct kind (x ∷ axes ∷ []) (flag keep ∷ []))

  -- The axis is the one the node was built with, which `get_axis` gives back.
  unfoldable pub translate_arg_min_max : String → Handler lib
  unfolding get_input_node get_static_input_vector from_right get_dtype to_element_type index_vector
      save_ng_op
  translate_arg_min_max mode g statics op m = get_input_node g m op 0 >>= λ x.
      get_static_input_vector lib dt_int64 g statics op 1 >>= λ tf_dim. lib.get_shape x >>= λ s.
      elim (length tf_dim == 1) [
        | false ↦ err invalid_argument
        | true ↦ do
          d ← first tf_dim
          dtype ← require op "output_type" get_dtype
          et ← to_element_type dtype
          k ←
              lib.construct "Constant" []
                (element ElementType.i64 ∷ shape [] ∷ numbers (pos 1 ∷ []) ∷ [])
          topk ←
              lib.construct "TopK" (x ∷ k ∷ [])
                (number (from_right (length s) d) ∷ word mode ∷ word "none" ∷ element et ∷ [])
          axis ← index_vector lib (from_right (length s) d ∷ [])
          v ← lib.construct "Squeeze" (lib.output topk 1 ∷ axis ∷ []) []
          ok (save_ng_op m op.name v)
      ]

  unfoldable pub translate_arg_max_op : Handler lib
  unfolding translate_arg_min_max
  translate_arg_max_op = translate_arg_min_max "max"

  unfoldable pub translate_arg_min_op : Handler lib
  unfolding translate_arg_min_max
  translate_arg_min_op = translate_arg_min_max "min"
