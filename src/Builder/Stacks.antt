-- ===== src/Builder/Stacks.antt =====
-- The handlers of ngraph_bridge/ngraph_builder.cc for Pack, Unpack and IsFinite.
use ngraph.Prelude.{ℕ, zero, suc, String, true, false, List, [], ◌∷◌, ltb, length, set}
use ngraph.Prelude.Int.{ℤ, pos, negsuc}
use ngraph.Prelude.Positions.{replicate}
use ngraph.Prelude.Status.{Status, ok, err, fatal}
use ngraph.Graph.{Node, Graph, get_int}
use ngraph.Builder.Chain.{◌>>=◌, ◌>>◌}
use ngraph.Builder.Library.{Library, ElementType, element, shape, number, numbers, word}
use ngraph.Builder.Inputs.{
  OpMap, require, save_ng_op, get_input_node, one_input, validate_input_count,
  validate_input_count_min,
}
use ngraph.Builder.Elementwise.{Handler}
use ngraph.Builder.Shaped.{index_vector}
use ngraph.Builder.Parts.{rounds}

-- an element of a vector of `rank` elements that is written by `[]`
abbrev pub index_within : ℕ → ℤ → Status ℕ
index_within rank (negsuc i) = err fatal
index_within rank (pos i) = elim (ltb i rank) [ true ↦ ok i | false ↦ err fatal ]

-- `std::vector<int64_t> v(rank, fill); v[axis] = x;`
abbrev pub one_entry : ℕ → ℤ → ℕ → ℤ → List ℤ
one_entry rank fill axis x = set (replicate rank fill) axis x

module _ (lib : Library) where
  -- the inputs `i`, `i + 1`, ..., each with a new axis
  unfoldable pub unsqueeze_inputs :
      Graph → OpMap lib.Value → Node → lib.Value → ℕ → ℕ → Status (List lib.Value)
  unfolding get_input_node
  unsqueeze_inputs g m op axis i zero = ok []
  unsqueeze_inputs g m op axis i (suc k) = do
    x ← get_input_node g m op i
    v ← lib.construct "Unsqueeze" (x ∷ axis ∷ []) []
    rest ← unsqueeze_inputs g m op axis (suc i) k
    ok (v ∷ rest)

  unfoldable pub translate_pack_op : Handler lib
  unfolding validate_input_count_min get_int unsqueeze_inputs save_ng_op
  translate_pack_op g statics op m = do
    validate_input_count_min op 1
    tf_axis ← require op "axis" get_int
    axis ←
        lib.construct "Constant" []
          (element ElementType.i64 ∷ shape (1 ∷ []) ∷ numbers (tf_axis ∷ []) ∷ [])
    inputs ← unsqueeze_inputs g m op axis 0 op.num_inputs
    v ← lib.construct "Concat" inputs (number tf_axis ∷ [])
    ok (save_ng_op m op.name v)

  -- the part `i` of a value along an axis, without the axis
  unfoldable pub unpack_slice : lib.Value → ℕ → ℕ → ℕ → Status lib.Value
  unfolding index_vector
  unpack_slice x rank axis i = do
    begin ← index_vector lib (one_entry rank (pos 0) axis (pos i))
    end ← index_vector lib (one_entry rank (pos 0) axis (pos (suc i)))
    lib.construct "StridedSlice" (x ∷ begin ∷ end ∷ []) (
        numbers (one_entry rank (pos 1) axis (pos 0))
        ∷ numbers (one_entry rank (pos 1) axis (pos 0))
        ∷ numbers (replicate rank (pos 0))
        ∷ numbers (one_entry rank (pos 0) axis (pos 1))
        ∷ [])

  -- the parts `i`, `i + 1`, ..., saved one after the other
  unfoldable pub save_slices :
      OpMap lib.Value → String → lib.Value → ℕ → ℤ → ℕ → ℕ → Status (OpMap lib.Value)
  unfolding unpack_slice save_ng_op
  save_slices m name x rank tf_axis i zero = ok m
  save_slices m name x rank tf_axis i (suc k) = do
    axis ← index_within rank tf_axis
    v ← unpack_slice x rank axis i
    save_slices (save_ng_op m name v) name x rank tf_axis (suc i) k

  unfoldable pub translate_unpack_op : Handler lib
  unfolding validate_input_count get_input_node get_int save_slices
  translate_unpack_op g statics op m = do
    validate_input_count op 1
    x ← get_input_node g m op 0
    tf_axis ← require op "axis" get_int
    num_outputs ← require op "num" get_int
    s ← lib.get_shape x
    save_slices m op.name x (length s) tf_axis 0 (rounds lib num_outputs)

  -- The infinities are written as words.
  unfoldable pub translate_is_finite_op : Handler lib
  unfolding one_input save_ng_op
  translate_is_finite_op g statics op m = do
    x ← one_input g m op
    inf ←
        lib.construct "Constant" [] (element (lib.get_element_type x) ∷ shape [] ∷ word "inf" ∷ [])
    neg_inf ←
        lib.construct "Constant" [] (element (lib.get_element_type x) ∷ shape [] ∷ word "-inf" ∷ [])
    neq_inf ← lib.construct "NotEqual" (x ∷ inf ∷ []) []
    neq_neg_inf ← lib.construct "NotEqual" (x ∷ neg_inf ∷ []) []
    eq_nan ← lib.construct "Equal" (x ∷ x ∷ []) []
    neither ← lib.construct "LogicalAnd" (neq_inf ∷ neq_neg_inf ∷ []) []
    v ← lib.construct "LogicalAnd" (neither ∷ eq_nan ∷ []) []
    ok (save_ng_op m op.name v)
