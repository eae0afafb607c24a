-- ===== src/Builder/Shaped.antt =====
-- The handlers of ngraph_bridge/ngraph_builder.cc that read shapes or static inputs.
use ngraph.Prelude.{
  ℕ, zero, suc, ◌-◌, String, Bool, true, false, List, [], ◌∷◌, ◌==◌, nat_eq, string_eq, map, ltb,
  length,
}
use ngraph.Prelude.Int.{ℤ, pos, negsuc, ◌+ℤ◌}
use ngraph.Prelude.Status.{Status, ok, err, internal, invalid_argument, fatal}
use ngraph.Graph.{dt_int32, dt_int64, Node, Graph, get_dtype, get_int, get_ints}
use ngraph.Builder.Chain.{◌>>=◌, ◌>>◌}
use ngraph.Prelude.Positions.{replicate}
use ngraph.Builder.Library.{
  Library, ElementType, element, shape, number, numbers, flag, word, to_element_type,
}
use ngraph.Builder.Inputs.{
  OpMap, require, save_ng_op, get_inputs_from, get_input_node, one_input, two_inputs, three_inputs,
  four_inputs, validate_input_count_min,
}
use ngraph.Builder.Statics.{get_static_input_vector}
use ngraph.Builder.Elementwise.{Handler, shape_size, translate_unary_with}

-- 0, 1, ..., from `i` on
abbrev pub count_from : ℕ → ℕ → List ℤ
count_from i zero = []
count_from i (suc n) = pos i ∷ count_from (suc i) n

-- `vec[0]` of an empty vector is undefined.
abbrev pub first {ℓ} : {A : Type ℓ} → List A → Status A
first [] = err fatal
first (a ∷ rest) = ok a

-- a negative axis, counted from the right
unfoldable pub from_right : ℕ → ℤ → ℤ
unfolding ◌+ℤ◌
from_right rank (pos i) = pos i
from_right rank (negsuc i) = negsuc i +ℤ pos rank

module _ (lib : Library) where
  -- a constant of the type i64 with the numbers as a vector
  unfoldable pub index_vector : List ℤ → Status lib.Value
  index_vector is =
      lib.construct "Constant" []
        (element ElementType.i64 ∷ shape (length is ∷ []) ∷ numbers is ∷ [])

  -- a constant of the type and the shape of a value, filled with one text
  unfoldable pub constant_like : lib.Value → String → Status lib.Value
  constant_like n text = lib.get_shape n >>= λ s. lib.construct "Constant" [] (
      element (lib.get_element_type n)
      ∷ shape s
      ∷ map (λ t. word t) (replicate (shape_size s) text))

  unfoldable pub translate_log1p_op : Handler lib
  unfolding translate_unary_with constant_like
  translate_log1p_op = translate_unary_with lib (λ n. do
    one ← constant_like n "1"
    sum ← lib.construct "Add" (one ∷ n ∷ []) []
    lib.construct "Log" (sum ∷ []) [])

  unfoldable pub translate_reciprocal_op : Handler lib
  unfolding translate_unary_with constant_like
  translate_reciprocal_op =
      translate_unary_with lib
        (λ n. do exponent ← constant_like n "-1"; lib.construct "Power" (n ∷ exponent ∷ []) [])

  unfoldable pub translate_rsqrt_op : Handler lib
  unfolding translate_unary_with constant_like
  translate_rsqrt_op =
      translate_unary_with lib
        (λ n. do exponent ← constant_like n "-0.5"; lib.construct "Power" (n ∷ exponent ∷ []) [])

  unfoldable pub translate_zeros_like_op : Handler lib
  unfolding one_input constant_like save_ng_op
  translate_zeros_like_op g statics op m = do
    x ← one_input g m op
    v ← constant_like x "0"
    ok (save_ng_op m op.name v)

  unfoldable pub translate_l2_loss_op : Handler lib
  unfolding one_input index_vector save_ng_op
  translate_l2_loss_op g statics op m = do
    x ← one_input g m op
    two ←
        lib.construct "Constant" []
          (element (lib.get_element_type x) ∷ shape [] ∷ number (pos 2) ∷ [])
    square ← lib.construct "Multiply" (x ∷ x ∷ []) []
    s ← lib.get_shape x
    axes ← index_vector (count_from 0 (length s))
    sum ← lib.construct "ReduceSum" (square ∷ axes ∷ []) []
    v ← lib.construct "Divide" (sum ∷ two ∷ []) []
    ok (save_ng_op m op.name v)

  -- `rank - 1` of rank 0 is -1, as an `int64`.
  unfoldable pub translate_log_softmax_op : Handler lib
  unfolding one_input ◌+ℤ◌ save_ng_op
  translate_log_softmax_op g statics op m = do
    x ← one_input g m op
    s ← lib.get_shape x
    v ← lib.construct "LogSoftmax" (x ∷ []) (number (pos (length s) +ℤ negsuc 0) ∷ [])
    ok (save_ng_op m op.name v)

  unfoldable pub translate_softmax_op : Handler lib
  unfolding one_input save_ng_op
  translate_softmax_op g statics op m = one_input g m op >>= λ x. lib.get_shape x >>= λ s.
      elim (ltb (length s) 1) [
        | true ↦ err invalid_argument
        | false ↦ do
          v ← lib.construct "Softmax" (x ∷ []) (number (pos (length s - 1)) ∷ [])
          ok (save_ng_op m op.name v)
      ]

  unfoldable pub translate_rank_op : Handler lib
  unfolding one_input save_ng_op
  translate_rank_op g statics op m = do
    x ← one_input g m op
    s ← lib.get_shape x
    v ←
        lib.construct "Constant" []
          (element ElementType.i32 ∷ shape [] ∷ numbers (pos (length s) ∷ []) ∷ [])
    ok (save_ng_op m op.name v)

  -- The product is an `int64`; its overflow is not modelled.
  unfoldable pub translate_size_op : Handler lib
  unfolding one_input get_dtype to_element_type save_ng_op
  translate_size_op g statics op m = do
    x ← one_input g m op
    dtype ← require op "out_type" get_dtype
    et ← to_element_type dtype
    s ← lib.get_shape x
    v ← lib.construct "Constant" [] (element et ∷ shape [] ∷ numbers (pos (shape_size s) ∷ []) ∷ [])
    ok (save_ng_op m op.name v)

  unfoldable pub translate_shape_op : Handler lib
  unfolding get_input_node get_dtype to_element_type save_ng_op
  translate_shape_op g statics op m = do
    x ← get_input_node g m op 0
    dtype ← require op "out_type" get_dtype
    et ← to_element_type dtype
    v ← lib.construct "ShapeOf" (x ∷ []) (element et ∷ [])
    ok (save_ng_op m op.name v)

  unfoldable pub translate_squeeze_op : Handler lib
  unfolding one_input get_ints from_right save_ng_op
  translate_squeeze_op g statics op m = do
    x ← one_input g m op
    s ← lib.get_shape x
    axis ← require op "squeeze_dims" get_ints
    node ← lib.construct "Constant" [] (
        element ElementType.i32
        ∷ shape (length axis ∷ [])
        ∷ numbers (map (from_right (length s)) axis)
        ∷ [])
    v ← lib.construct "Squeeze" (x ∷ node ∷ []) []
    ok (save_ng_op m op.name v)

  unfoldable pub translate_expand_dims_op : Handler lib
  unfolding get_input_node get_static_input_vector index_vector save_ng_op
  translate_expand_dims_op g statics op m = do
    x ← get_input_node g m op 0
    dims ← get_static_input_vector lib dt_int64 g statics op 1
    node ← index_vector dims
    v ← lib.construct "Unsqueeze" (x ∷ node ∷ []) []
    ok (save_ng_op m op.name v)

  unfoldable pub translate_reshape_op : Handler lib
  unfolding two_inputs get_static_input_vector index_vector save_ng_op
  translate_reshape_op g statics op m = do
    (x, _) ← two_inputs g m op
    s ← get_static_input_vector lib dt_int64 g statics op 1
    node ← index_vector s
    v ← lib.construct "Reshape" (x ∷ node ∷ []) (flag false ∷ [])
    ok (save_ng_op m op.name v)

  unfoldable pub translate_tile_op : Handler lib
  unfolding two_inputs get_static_input_vector index_vector save_ng_op
  translate_tile_op g statics op m = do
    (x, _) ← two_inputs g m op
    multiples ← get_static_input_vector lib dt_int64 g statics op 1
    node ← index_vector multiples
    v ← lib.construct "Tile" (x ∷ node ∷ []) []
    ok (save_ng_op m op.name v)

  -- the test `axis < 0 || axis >= rank`
  unfoldable pub is_axis : ℕ → ℤ → Bool
  is_axis rank (pos i) = ltb i rank
  is_axis rank (negsuc i) = false

  unfoldable pub translate_gather_v2_op : Handler lib
  unfolding three_inputs get_static_input_vector from_right is_axis index_vector save_ng_op
  translate_gather_v2_op g statics op m = three_inputs g m op >>= λ inputs.
      get_static_input_vector lib dt_int64 g statics op 2 >>= λ tf_axis.
      elim (ltb 1 (length tf_axis)) [
        | true ↦ err internal
        | false ↦ lib.get_shape inputs.0 >>= λ s. first tf_axis >>= λ axis.
            elim (is_axis (length s) (from_right (length s) axis)) [
              | false ↦ err invalid_argument
              | true ↦ do
                node ← index_vector tf_axis
                v ← lib.construct "Gather" (inputs.0 ∷ inputs.1 ∷ node ∷ []) []
                ok (save_ng_op m op.name v)
            ]
      ]

  unfoldable pub translate_one_hot_op : Handler lib
  unfolding four_inputs get_static_input_vector get_int save_ng_op
  translate_one_hot_op g statics op m = four_inputs g m op >>= λ inputs.
      lib.get_shape inputs.0 >>= λ _.
      get_static_input_vector lib dt_int32 g statics op 1 >>= λ depth. elim (length depth == 1) [
        | false ↦ err invalid_argument
        | true ↦ do
          node ←
              lib.construct "Constant" [] (element ElementType.i64 ∷ shape [] ∷ numbers depth ∷ [])
          axis ← require op "axis" get_int
          v ← lib.construct "OneHot" (inputs.0 ∷ node ∷ inputs.2 ∷ inputs.3 ∷ []) (number axis ∷ [])
          ok (save_ng_op m op.name v)
      ]

  -- a negative axis of the concatenation is counted from the rank of the first input
  unfoldable pub concat_axis : Graph → OpMap lib.Value → Node → ℤ → Status ℤ
  unfolding get_input_node ◌+ℤ◌
  concat_axis g m op (pos i) = ok (pos i)
  concat_axis g m op (negsuc i) = do
    x ← get_input_node g m op 0
    s ← lib.get_shape x
    ok (negsuc i +ℤ pos (length s))

  unfoldable pub translate_concat_v2_op : Handler lib
  unfolding validate_input_count_min get_static_input_vector concat_axis get_inputs_from save_ng_op
  translate_concat_v2_op g statics op m = do
    validate_input_count_min op 2
    axes ← get_static_input_vector lib dt_int64 g statics op (op.num_inputs - 1)
    tf_axis ← first axes
    axis ← concat_axis g m op tf_axis
    args ← get_inputs_from g m op 0 (op.num_inputs - 1)
    v ← lib.construct "Concat" args (number axis ∷ [])
    ok (save_ng_op m op.name v)
