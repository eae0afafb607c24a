-- ===== src/Builder/Dispatch.antt =====
-- The handlers behind the names of the table, and the call of a handler by Builder::TranslateGraph.
use ngraph.Prelude.{String, none, some, List, [], ◌∷◌, string_eq, lookup}
use ngraph.Prelude.Status.{Status, ok, err, internal, thrown, ◌>>=◌}
use ngraph.Builder.Library.{Library}
use ngraph.Builder.Inputs.{OpMap}
use ngraph.Builder.Handlers.{handler_of}
use ngraph.Builder.Elementwise.{
  Handler, translate_unary_op, translate_binary_op, translate_add_n_op, translate_cast_op,
  translate_cumsum_op, translate_fill_op, translate_floor_div_op, translate_gather_op,
  translate_identity_op, translate_mat_mul_op, translate_relu6_op, translate_square_op,
  translate_transpose_op, translate_xdivy_op, translate_select_op, translate_where_op,
}
use ngraph.Builder.Shaped.{
  translate_log1p_op, translate_reciprocal_op, translate_rsqrt_op, translate_zeros_like_op,
  translate_l2_loss_op, translate_log_softmax_op, translate_softmax_op, translate_rank_op,
  translate_size_op, translate_shape_op, translate_squeeze_op, translate_expand_dims_op,
  translate_reshape_op, translate_tile_op, translate_gather_v2_op, translate_one_hot_op,
  translate_concat_v2_op,
}
use ngraph.Builder.Reductions.{
  translate_direct_reduce_op, translate_arg_max_op, translate_arg_min_op,
}
use ngraph.Builder.Stacks.{translate_pack_op, translate_unpack_op, translate_is_finite_op}
use ngraph.Builder.Parts.{translate_split_op, translate_split_v_op, translate_top_k_v2_op}

module _ (lib : Library) where
  unfoldable pub modelled_handlers : List (String × Handler lib)
  modelled_handlers =
      ("TranslateUnaryOp<opset::Abs>", translate_unary_op lib "Abs")
      ∷ ("TranslateUnaryOp<opset::Acos>", translate_unary_op lib "Acos")
      ∷ ("TranslateUnaryOp<opset::Acosh>", translate_unary_op lib "Acosh")
      ∷ ("TranslateBinaryOp<opset::Add>", translate_binary_op lib "Add")
      ∷ ("TranslateAddNOp", translate_add_n_op lib)
      ∷ (
        "TranslateDirectReduceOp<opset::ReduceLogicalOr>",
        translate_direct_reduce_op lib "ReduceLogicalOr",
      )
      ∷ (
        "TranslateDirectReduceOp<opset::ReduceLogicalAnd>",
        translate_direct_reduce_op lib "ReduceLogicalAnd",
      )
      ∷ ("TranslateArgMaxOp", translate_arg_max_op lib)
      ∷ ("TranslateArgMinOp", translate_arg_min_op lib)
      ∷ ("TranslateUnaryOp<opset::Asin>", translate_unary_op lib "Asin")
      ∷ ("TranslateUnaryOp<opset::Asinh>", translate_unary_op lib "Asinh")
      ∷ ("TranslateUnaryOp<opset::Atan>", translate_unary_op lib "Atan")
      ∷ ("TranslateUnaryOp<opset::Atanh>", translate_unary_op lib "Atanh")
      ∷ ("TranslateCastOp", translate_cast_op lib)
      ∷ ("TranslateUnaryOp<opset::Ceiling>", translate_unary_op lib "Ceiling")
      ∷ ("TranslateConcatV2Op", translate_concat_v2_op lib)
      ∷ ("TranslateUnaryOp<opset::Cos>", translate_unary_op lib "Cos")
      ∷ ("TranslateUnaryOp<opset::Cosh>", translate_unary_op lib "Cosh")
      ∷ ("TranslateCumsumOp", translate_cumsum_op lib)
      ∷ ("TranslateBinaryOp<opset::Equal>", translate_binary_op lib "Equal")
      ∷ ("TranslateUnaryOp<opset::Exp>", translate_unary_op lib "Exp")
      ∷ ("TranslateExpandDimsOp", translate_expand_dims_op lib)
      ∷ ("TranslateFillOp", translate_fill_op lib)
      ∷ ("TranslateUnaryOp<opset::Floor>", translate_unary_op lib "Floor")
      ∷ ("TranslateFloorDivOp", translate_floor_div_op lib)
      ∷ ("TranslateBinaryOp<opset::FloorMod>", translate_binary_op lib "FloorMod")
      ∷ ("TranslateGatherOp", translate_gather_op lib)
      ∷ ("TranslateGatherV2Op", translate_gather_v2_op lib)
      ∷ ("TranslateBinaryOp<opset::Greater>", translate_binary_op lib "Greater")
      ∷ ("TranslateBinaryOp<opset::GreaterEqual>", translate_binary_op lib "GreaterEqual")
      ∷ ("TranslateIdentityOp", translate_identity_op lib)
      ∷ ("TranslateIsFiniteOp", translate_is_finite_op lib)
      ∷ ("TranslateL2LossOp", translate_l2_loss_op lib)
      ∷ ("TranslateLogSoftmaxOp", translate_log_softmax_op lib)
      ∷ ("TranslateBinaryOp<opset::Less>", translate_binary_op lib "Less")
      ∷ ("TranslateBinaryOp<opset::LessEqual>", translate_binary_op lib "LessEqual")
      ∷ ("TranslateUnaryOp<opset::Log>", translate_unary_op lib "Log")
      ∷ ("TranslateLog1pOp", translate_log1p_op lib)
      ∷ ("TranslateBinaryOp<opset::LogicalAnd>", translate_binary_op lib "LogicalAnd")
      ∷ ("TranslateUnaryOp<opset::LogicalNot>", translate_unary_op lib "LogicalNot")
      ∷ ("TranslateBinaryOp<opset::LogicalOr>", translate_binary_op lib "LogicalOr")
      ∷ ("TranslateMatMulOp", translate_mat_mul_op lib)
      ∷ ("TranslateDirectReduceOp<opset::ReduceMax>", translate_direct_reduce_op lib "ReduceMax")
      ∷ ("TranslateBinaryOp<opset::Maximum>", translate_binary_op lib "Maximum")
      ∷ ("TranslateDirectReduceOp<opset::ReduceMean>", translate_direct_reduce_op lib "ReduceMean")
      ∷ ("TranslateDirectReduceOp<opset::ReduceMin>", translate_direct_reduce_op lib "ReduceMin")
      ∷ ("TranslateBinaryOp<opset::Minimum>", translate_binary_op lib "Minimum")
      ∷ ("TranslateBinaryOp<opset::Multiply>", translate_binary_op lib "Multiply")
      ∷ ("TranslateBinaryOp<opset::Mod>", translate_binary_op lib "Mod")
      ∷ ("TranslateUnaryOp<opset::Negative>", translate_unary_op lib "Negative")
      ∷ ("TranslateBinaryOp<opset::NotEqual>", translate_binary_op lib "NotEqual")
      ∷ ("TranslateOneHotOp", translate_one_hot_op lib)
      ∷ ("TranslatePackOp", translate_pack_op lib)
      ∷ ("TranslateBinaryOp<opset::Power>", translate_binary_op lib "Power")
      ∷ ("TranslateDirectReduceOp<opset::ReduceProd>", translate_direct_reduce_op lib "ReduceProd")
      ∷ ("TranslateRankOp", translate_rank_op lib)
      ∷ ("TranslateBinaryOp<opset::Divide>", translate_binary_op lib "Divide")
      ∷ ("TranslateReciprocalOp", translate_reciprocal_op lib)
      ∷ ("TranslateUnaryOp<opset::Relu>", translate_unary_op lib "Relu")
      ∷ ("TranslateRelu6Op", translate_relu6_op lib)
      ∷ ("TranslateReshapeOp", translate_reshape_op lib)
      ∷ ("TranslateRsqrtOp", translate_rsqrt_op lib)
      ∷ ("TranslateSelectOp", translate_select_op lib)
      ∷ ("TranslateShapeOp", translate_shape_op lib)
      ∷ ("TranslateUnaryOp<opset::Sigmoid>", translate_unary_op lib "Sigmoid")
      ∷ ("TranslateUnaryOp<opset::Sin>", translate_unary_op lib "Sin")
      ∷ ("TranslateUnaryOp<opset::Sinh>", translate_unary_op lib "Sinh")
      ∷ ("TranslateSizeOp", translate_size_op lib)
      ∷ ("TranslateUnaryOp<opset::Sign>", translate_unary_op lib "Sign")
      ∷ ("TranslateSoftmaxOp", translate_softmax_op lib)
      ∷ ("TranslateUnaryOp<opset::SoftPlus>", translate_unary_op lib "SoftPlus")
      ∷ ("TranslateSplitOp", translate_split_op lib)
      ∷ ("TranslateSplitVOp", translate_split_v_op lib)
      ∷ ("TranslateUnaryOp<opset::Sqrt>", translate_unary_op lib "Sqrt")
      ∷ ("TranslateSquareOp", translate_square_op lib)
      ∷ ("TranslateBinaryOp<opset::SquaredDifference>", translate_binary_op lib "SquaredDifference")
      ∷ ("TranslateSqueezeOp", translate_squeeze_op lib)
      ∷ ("TranslateBinaryOp<opset::Subtract>", translate_binary_op lib "Subtract")
      ∷ ("TranslateDirectReduceOp<opset::ReduceSum>", translate_direct_reduce_op lib "ReduceSum")
      ∷ ("TranslateUnaryOp<opset::Tan>", translate_unary_op lib "Tan")
      ∷ ("TranslateUnaryOp<opset::Tanh>", translate_unary_op lib "Tanh")
      ∷ ("TranslateTileOp", translate_tile_op lib)
      ∷ ("TranslateTopKV2Op", translate_top_k_v2_op lib)
      ∷ ("TranslateTransposeOp", translate_transpose_op lib)
      ∷ ("TranslateUnpackOp", translate_unpack_op lib)
      ∷ ("TranslateWhereOp", translate_where_op lib)
      ∷ ("TranslateXdivyOp", translate_xdivy_op lib)
      ∷ ("TranslateZerosLikeOp", translate_zeros_like_op lib)
      ∷ []

  -- `others`: the handlers that are not modelled, by their names
  unfoldable pub handler_named : (String → Handler lib) → String → Handler lib
  unfolding lookup modelled_handlers
  handler_named others name = elim (lookup name modelled_handlers) [
    | some handler ↦ handler
    | none ↦ others name
  ]

  -- an exception of the handler is an internal error
  abbrev pub caught : Status (OpMap lib.Value) → Status (OpMap lib.Value)
  caught (err thrown) = err internal
  caught (err c) = err c
  caught (ok m) = ok m

  -- the body of the loop over the ops: the lookup and the call
  unfoldable pub translate_op : (String → Handler lib) → Handler lib
  unfolding handler_of handler_named
  translate_op others g statics op m =
      handler_of op.type_string >>= λ name. caught (handler_named others name g statics op m)
