-- ===== src/Builder/Framed.antt =====
-- What the call of a handler can change in the op map.
use ngraph.Prelude.{
  String, ◌≡◌, subst, Option, some, List, [], ◌∷◌, arith, ◌==◌, string_eq, lookup, Bool-cases,
  Option-cases, inl, inr,
}
use ngraph.Prelude.Status.{Status, ok, >>=-eq-ok}
use ngraph.Graph.{Node, Graph}
use ngraph.Builder.Library.{Library}
use ngraph.Builder.Inputs.{OpMap}
use ngraph.Builder.Handlers.{handler_of}
use ngraph.Builder.Elementwise.{Handler}
use ngraph.Builder.Dispatch.{modelled_handlers, handler_named, caught, translate_op}
use ngraph.Builder.Saves.{Adds}
use ngraph.Builder.Frame.{
  IsSaving, translate_add_n_op-IsSaving, translate_binary_op-IsSaving, translate_cast_op-IsSaving,
  translate_cumsum_op-IsSaving, translate_fill_op-IsSaving, translate_floor_div_op-IsSaving,
  translate_gather_op-IsSaving, translate_identity_op-IsSaving, translate_mat_mul_op-IsSaving,
  translate_relu6_op-IsSaving, translate_select_op-IsSaving, translate_square_op-IsSaving,
  translate_transpose_op-IsSaving, translate_unary_op-IsSaving, translate_where_op-IsSaving,
  translate_xdivy_op-IsSaving,
}
use ngraph.Builder.FrameStacks.{
  translate_pack_op-IsSaving, translate_unpack_op-IsSaving, translate_is_finite_op-IsSaving,
}
use ngraph.Builder.FrameShaped.{
  translate_arg_max_op-IsSaving, translate_arg_min_op-IsSaving, translate_concat_v2_op-IsSaving,
  translate_direct_reduce_op-IsSaving, translate_expand_dims_op-IsSaving,
  translate_gather_v2_op-IsSaving, translate_l2_loss_op-IsSaving, translate_log1p_op-IsSaving,
  translate_log_softmax_op-IsSaving, translate_one_hot_op-IsSaving, translate_rank_op-IsSaving,
  translate_reciprocal_op-IsSaving, translate_reshape_op-IsSaving, translate_rsqrt_op-IsSaving,
  translate_shape_op-IsSaving, translate_size_op-IsSaving, translate_softmax_op-IsSaving,
  translate_split_op-IsSaving, translate_split_v_op-IsSaving, translate_squeeze_op-IsSaving,
  translate_tile_op-IsSaving, translate_top_k_v2_op-IsSaving, translate_zeros_like_op-IsSaving,
}

-- every handler of a table writes only the entry of its op
data AreSaving (lib : Library) : List (String × Handler lib) → Type 0 where
  empty : AreSaving lib []
  also :
      {name : String} {h : Handler lib} {rest : List (String × Handler lib)}
      → IsSaving lib h
      → AreSaving lib rest
      → AreSaving lib ((name, h) ∷ rest)

module _ (lib : Library) where
  modelled_handlers-AreSaving : AreSaving lib (modelled_handlers lib)
  unfolding modelled_handlers
  modelled_handlers-AreSaving = also (translate_unary_op-IsSaving lib "Abs") (
      also (translate_unary_op-IsSaving lib "Acos") (
        also (translate_unary_op-IsSaving lib "Acosh") (
          also (translate_binary_op-IsSaving lib "Add") (
            also (translate_add_n_op-IsSaving lib) (
              also (translate_direct_reduce_op-IsSaving lib "ReduceLogicalOr") (
                also (translate_direct_reduce_op-IsSaving lib "ReduceLogicalAnd") (
                  also (translate_arg_max_op-IsSaving lib) (
                    also (translate_arg_min_op-IsSaving lib) (
                      also (translate_unary_op-IsSaving lib "Asin") (
                        also (translate_unary_op-IsSaving lib "Asinh") (
                          also (translate_unary_op-IsSaving lib "Atan") (
                            also (translate_unary_op-IsSaving lib "Atanh") (
                              also (translate_cast_op-IsSaving lib) (
                                also (translate_unary_op-IsSaving lib "Ceiling") (
                                  also (translate_concat_v2_op-IsSaving lib) (
                                    also (translate_unary_op-IsSaving lib "Cos") (
                                      also (translate_unary_op-IsSaving lib "Cosh") (
                                        also (translate_cumsum_op-IsSaving lib) (
                                          also (translate_binary_op-IsSaving lib "Equal") (
                                            also (translate_unary_op-IsSaving lib "Exp") (
                                              also (translate_expand_dims_op-IsSaving lib) (
                                                also (translate_fill_op-IsSaving lib) (
                                                  also (translate_unary_op-IsSaving lib "Floor") (
                                                    also (translate_floor_div_op-IsSaving lib) (
                                                      also
                                                        (translate_binary_op-IsSaving lib
                                                          "FloorMod")
                                                        (also (translate_gather_op-IsSaving lib) (
                                                          also (translate_gather_v2_op-IsSaving lib)
                                                            (also
                                                            (translate_binary_op-IsSaving lib
                                                            "Greater")
                                                            (also
                                                            (translate_binary_op-IsSaving lib
                                                            "GreaterEqual")
                                                            (also
                                                            (translate_identity_op-IsSaving lib)
                                                            (also
                                                            (translate_is_finite_op-IsSaving lib)
                                                            (also
                                                            (translate_l2_loss_op-IsSaving lib)
                                                            (also
                                                            (translate_log_softmax_op-IsSaving lib)
                                                            (also
                                                            (translate_binary_op-IsSaving lib
                                                            "Less")
                                                            (also
                                                            (translate_binary_op-IsSaving lib
                                                            "LessEqual")
                                                            (also
                                                            (translate_unary_op-IsSaving lib "Log")
                                                            (also (translate_log1p_op-IsSaving lib)
                                                            (also
                                                            (translate_binary_op-IsSaving lib
                                                            "LogicalAnd")
                                                            (also
                                                            (translate_unary_op-IsSaving lib
                                                            "LogicalNot")
                                                            (also
                                                            (translate_binary_op-IsSaving lib
                                                            "LogicalOr")
                                                            (also
                                                            (translate_mat_mul_op-IsSaving lib)
                                                            (also
                                                            (translate_direct_reduce_op-IsSaving lib
                                                            "ReduceMax")
                                                            (also
                                                            (translate_binary_op-IsSaving lib
                                                            "Maximum")
                                                            (also
                                                            (translate_direct_reduce_op-IsSaving lib
                                                            "ReduceMean")
                                                            (also
                                                            (translate_direct_reduce_op-IsSaving lib
                                                            "ReduceMin")
                                                            (also
                                                            (translate_binary_op-IsSaving lib
                                                            "Minimum")
                                                            (also
                                                            (translate_binary_op-IsSaving lib
                                                            "Multiply")
                                                            (also
                                                            (translate_binary_op-IsSaving lib "Mod")
                                                            (also
                                                            (translate_unary_op-IsSaving lib
                                                            "Negative")
                                                            (also
                                                            (translate_binary_op-IsSaving lib
                                                            "NotEqual")
                                                            (also
                                                            (translate_one_hot_op-IsSaving lib)
                                                            (also (translate_pack_op-IsSaving lib) (
                                                            also
                                                            (translate_binary_op-IsSaving lib
                                                            "Power")
                                                            (also
                                                            (translate_direct_reduce_op-IsSaving lib
                                                            "ReduceProd")
                                                            (also (translate_rank_op-IsSaving lib) (
                                                            also
                                                            (translate_binary_op-IsSaving lib
                                                            "Divide")
                                                            (also
                                                            (translate_reciprocal_op-IsSaving lib)
                                                            (also
                                                            (translate_unary_op-IsSaving lib "Relu")
                                                            (also (translate_relu6_op-IsSaving lib)
                                                            (also
                                                            (translate_reshape_op-IsSaving lib)
                                                            (also (translate_rsqrt_op-IsSaving lib)
                                                            (also (translate_select_op-IsSaving lib)
                                                            (also (translate_shape_op-IsSaving lib)
                                                            (also
                                                            (translate_unary_op-IsSaving lib
                                                            "Sigmoid")
                                                            (also
                                                            (translate_unary_op-IsSaving lib "Sin")
                                                            (also
                                                            (translate_unary_op-IsSaving lib "Sinh")
                                                            (also (translate_size_op-IsSaving lib) (
                                                            also
                                                            (translate_unary_op-IsSaving lib "Sign")
                                                            (also
                                                            (translate_softmax_op-IsSaving lib)
                                                            (also
                                                            (translate_unary_op-IsSaving lib
                                                            "SoftPlus")
                                                            (also (translate_split_op-IsSaving lib)
                                                            (also
                                                            (translate_split_v_op-IsSaving lib)
                                                            (also
                                                            (translate_unary_op-IsSaving lib "Sqrt")
                                                            (also (translate_square_op-IsSaving lib)
                                                            (also
                                                            (translate_binary_op-IsSaving lib
                                                            "SquaredDifference")
                                                            (also
                                                            (translate_squeeze_op-IsSaving lib)
                                                            (also
                                                            (translate_binary_op-IsSaving lib
                                                            "Subtract")
                                                            (also
                                                            (translate_direct_reduce_op-IsSaving lib
                                                            "ReduceSum")
                                                            (also
                                                            (translate_unary_op-IsSaving lib "Tan")
                                                            (also
                                                            (translate_unary_op-IsSaving lib "Tanh")
                                                            (also (translate_tile_op-IsSaving lib) (
                                                            also
                                                            (translate_top_k_v2_op-IsSaving lib)
                                                            (also
                                                            (translate_transpose_op-IsSaving lib)
                                                            (also (translate_unpack_op-IsSaving lib)
                                                            (also (translate_where_op-IsSaving lib)
                                                            (also (translate_xdivy_op-IsSaving lib)
                                                            (also
                                                            (translate_zeros_like_op-IsSaving lib)
                                                            empty)))))))))))))))))))))))))))))))))))
                                                            ))))))))))))))))))))))))))))))))))))))))
                                                            ))))))))))))

  lookup-IsSaving :
      (hs : List (String × Handler lib)) (name : String) (h : Handler lib)
      → AreSaving lib hs
      → lookup name hs ≡ some h
      → IsSaving lib h
  unfolding lookup
  lookup-IsSaving [] name h p k = absurd (ground arith)
  lookup-IsSaving ((n, x) ∷ hs) name h (also p ps) k = elim (Bool-cases (name == n)) [
    | inl own ↦ subst (IsSaving lib) (some_inj (ground arith)) p
    | inr other ↦ lookup-IsSaving hs name h ps (ground arith)
  ]
    where
      some_inj : {a b : Handler lib} → some a ≡ some b → a ≡ b
      some_inj e = cc

  -- A call of a handler that succeeds leaves the entries of all other names in the op map as they are,
  -- and only appends to the entry of its op. Of the handlers that are not modelled it is assumed.
  pub translate_op-Adds :
      (others : String → Handler lib)
      → ((name : String) → IsSaving lib (others name))
      → (g : Graph) (statics : List (Option lib.Tensor)) (op : Node) (m m' : OpMap lib.Value)
      → translate_op lib others g statics op m ≡ ok m'
      → Adds op.name m m'
  unfolding translate_op handler_named
  translate_op-Adds others saving g statics op m m' h =
      let (name, _, k) =
        >>=-eq-ok (handler_of op.type_string)
          (λ name. caught lib (handler_named lib others name g statics op m)) h in
      elim (Option-cases (lookup name (modelled_handlers lib))) [
        | inl other ↦
            (saving name g statics op m).adds m'
              (caught_ok (others name g statics op m) (ground arith))
        | inr (handler, found) ↦
            (lookup-IsSaving (modelled_handlers lib) name handler modelled_handlers-AreSaving found
                g statics op m).adds
              m' (caught_ok (handler g statics op m) (ground arith))
      ]
    where
      caught_ok : (r : Status (OpMap lib.Value)) → caught lib r ≡ ok m' → r ≡ ok m'
      caught_ok r h = ground arith
