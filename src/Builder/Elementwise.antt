-- ===== src/Builder/Elementwise.antt =====
-- The handlers of ngraph_bridge/ngraph_builder.cc that build from the values of their inputs alone.
use ngraph.Prelude.{ℕ, String, Option, List, [], ◌∷◌, ◌*◌}
use ngraph.Prelude.Int.{pos}
use ngraph.Prelude.Status.{Status, ok, err, thrown}
use ngraph.Graph.{Node, Graph, get_dtype, get_flag}
use ngraph.Builder.Chain.{◌>>=◌}
use ngraph.Builder.Library.{
  Library, ElementType, element, shape, number, numbers, flag, to_element_type,
}
use ngraph.Builder.Inputs.{
  OpMap, require, save_ng_op, get_inputs_from, one_input, two_inputs, three_inputs,
}

-- a handler, for the graph and the static inputs of a translation
abbrev pub Handler : Library → Type 0
Handler lib = Graph → List (Option lib.Tensor) → Node → OpMap lib.Value → Status (OpMap lib.Value)

-- `ng::shape_size`
abbrev pub shape_size : List ℕ → ℕ
shape_size [] = 1
shape_size (d ∷ ds) = d * shape_size ds

module _ (lib : Library) where
  -- with the function that makes the value
  unfoldable pub translate_unary_with : (lib.Value → Status lib.Value) → Handler lib
  unfolding one_input save_ng_op
  translate_unary_with create_unary_op g statics op m = do
    x ← one_input g m op
    v ← create_unary_op x
    ok (save_ng_op m op.name v)

  unfoldable pub translate_unary_op : String → Handler lib
  unfolding translate_unary_with
  translate_unary_op kind = translate_unary_with (λ x. lib.construct kind (x ∷ []) [])

  unfoldable pub translate_binary_with : (lib.Value → lib.Value → Status lib.Value) → Handler lib
  unfolding two_inputs save_ng_op
  translate_binary_with create_binary_op g statics op m = do
    (a, b) ← two_inputs g m op
    v ← create_binary_op a b
    ok (save_ng_op m op.name v)

  unfoldable pub translate_binary_op : String → Handler lib
  unfolding translate_binary_with
  translate_binary_op kind = translate_binary_with (λ a b. lib.construct kind (a ∷ b ∷ []) [])

  -- `std::accumulate` with Add
  unfoldable pub accumulate : lib.Value → List lib.Value → Status lib.Value
  accumulate a [] = ok a
  accumulate a (b ∷ vs) = lib.construct "Add" (a ∷ b ∷ []) [] >>= λ s. accumulate s vs

  -- Without inputs, `at(0)` throws.
  unfoldable pub translate_add_n_op : Handler lib
  unfolding get_inputs_from accumulate save_ng_op
  translate_add_n_op g statics op m = get_inputs_from g m op 0 op.num_inputs >>= λ vs. elim vs [
    | [] ↦ err thrown
    | v ∷ rest ↦ do s ← accumulate v rest; ok (save_ng_op m op.name s)
  ]

  unfoldable pub translate_cast_op : Handler lib
  unfolding one_input get_dtype to_element_type save_ng_op
  translate_cast_op g statics op m = do
    x ← one_input g m op
    dtype ← require op "DstT" get_dtype
    et ← to_element_type dtype
    v ← lib.construct "Convert" (x ∷ []) (element et ∷ [])
    ok (save_ng_op m op.name v)

  unfoldable pub translate_cumsum_op : Handler lib
  unfolding two_inputs get_flag save_ng_op
  translate_cumsum_op g statics op m = do
    (x, axis) ← two_inputs g m op
    exclusive ← require op "exclusive" get_flag
    reverse ← require op "reverse" get_flag
    v ← lib.construct "CumSum" (x ∷ axis ∷ []) (flag exclusive ∷ flag reverse ∷ [])
    ok (save_ng_op m op.name v)

  unfoldable pub translate_fill_op : Handler lib
  unfolding two_inputs save_ng_op
  translate_fill_op g statics op m = do
    (dims, value) ← two_inputs g m op
    v ← lib.construct "Broadcast" (value ∷ dims ∷ []) []
    ok (save_ng_op m op.name v)

  unfoldable pub translate_floor_div_op : Handler lib
  unfolding translate_binary_with
  translate_floor_div_op =
      translate_binary_with
        (λ x y. lib.construct "Divide" (x ∷ y ∷ []) [] >>= λ q. lib.construct "Floor" (q ∷ []) [])

  unfoldable pub translate_gather_op : Handler lib
  unfolding two_inputs save_ng_op
  translate_gather_op g statics op m = do
    (x, indices) ← two_inputs g m op
    axis ← lib.construct "Constant" [] (element ElementType.i64 ∷ shape [] ∷ number (pos 0) ∷ [])
    v ← lib.construct "Gather" (x ∷ indices ∷ axis ∷ []) []
    ok (save_ng_op m op.name v)

  unfoldable pub translate_identity_op : Handler lib
  unfolding one_input save_ng_op
  translate_identity_op g statics op m = do x ← one_input g m op; ok (save_ng_op m op.name x)

  unfoldable pub translate_mat_mul_op : Handler lib
  unfolding two_inputs get_flag save_ng_op
  translate_mat_mul_op g statics op m = do
    (lhs, rhs) ← two_inputs g m op
    transpose_a ← require op "transpose_a" get_flag
    transpose_b ← require op "transpose_b" get_flag
    v ← lib.construct "MatMul" (lhs ∷ rhs ∷ []) (flag transpose_a ∷ flag transpose_b ∷ [])
    ok (save_ng_op m op.name v)

  unfoldable pub translate_relu6_op : Handler lib
  unfolding one_input save_ng_op
  translate_relu6_op g statics op m = do
    x ← one_input g m op
    v ← lib.construct "Clamp" (x ∷ []) (number (pos 0) ∷ number (pos 6) ∷ [])
    ok (save_ng_op m op.name v)

  unfoldable pub translate_square_op : Handler lib
  unfolding translate_unary_with
  translate_square_op = translate_unary_with (λ n. lib.construct "Multiply" (n ∷ n ∷ []) [])

  unfoldable pub translate_transpose_op : Handler lib
  unfolding two_inputs save_ng_op
  translate_transpose_op g statics op m = do
    (x, permutation) ← two_inputs g m op
    v ← lib.construct "Transpose" (x ∷ permutation ∷ []) []
    ok (save_ng_op m op.name v)

  unfoldable pub translate_xdivy_op : Handler lib
  unfolding two_inputs save_ng_op
  translate_xdivy_op g statics op m = do
    (x, y) ← two_inputs g m op
    zero_node ←
        lib.construct "Constant" []
          (element (lib.get_element_type x) ∷ shape [] ∷ numbers (pos 0 ∷ []) ∷ [])
    x_is_zero ← lib.construct "Equal" (x ∷ zero_node ∷ []) []
    quotient ← lib.construct "Divide" (x ∷ y ∷ []) []
    v ← lib.construct "Select" (x_is_zero ∷ x ∷ quotient ∷ []) []
    ok (save_ng_op m op.name v)

  unfoldable pub translate_select_op : Handler lib
  unfolding three_inputs save_ng_op
  translate_select_op g statics op m = do
    (a, b, c) ← three_inputs g m op
    v ← lib.construct "Select" (a ∷ b ∷ c ∷ []) []
    ok (save_ng_op m op.name v)

  unfoldable pub translate_where_op : Handler lib
  unfolding one_input save_ng_op
  translate_where_op g statics op m = do
    cond ← one_input g m op
    non_zero ← lib.construct "NonZero" (cond ∷ []) []
    order ←
        lib.construct "Constant" []
          (element ElementType.i64 ∷ shape (2 ∷ []) ∷ numbers (pos 1 ∷ pos 0 ∷ []) ∷ [])
    v ← lib.construct "Transpose" (non_zero ∷ order ∷ []) []
    ok (save_ng_op m op.name v)
