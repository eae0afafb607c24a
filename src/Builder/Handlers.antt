-- ===== src/Builder/Handlers.antt =====
-- TRANSLATE_OP_MAP of ngraph_bridge/ngraph_builder.cc, and its use by Builder::TranslateGraph. A
-- handler is known by its name in the table.
use ngraph.Prelude.{String, none, some, List, [], ◌∷◌, string_eq, lookup}
use ngraph.Prelude.Status.{Status, ok, err, invalid_argument}

unfoldable pub translate_op_map : List (String × String)
translate_op_map =
    ("Abs", "TranslateUnaryOp<opset::Abs>")
    ∷ ("Acos", "TranslateUnaryOp<opset::Acos>")
    ∷ ("Acosh", "TranslateUnaryOp<opset::Acosh>")
    ∷ ("Add", "TranslateBinaryOp<opset::Add>")
    ∷ ("AddN", "TranslateAddNOp")
    ∷ ("AddV2", "TranslateBinaryOp<opset::Add>")
    ∷ ("Any", "TranslateDirectReduceOp<opset::ReduceLogicalOr>")
    ∷ ("All", "TranslateDirectReduceOp<opset::ReduceLogicalAnd>")
    ∷ ("ArgMax", "TranslateArgMaxOp")
    ∷ ("ArgMin", "TranslateArgMinOp")
    ∷ ("Asin", "TranslateUnaryOp<opset::Asin>")
    ∷ ("Asinh", "TranslateUnaryOp<opset::Asinh>")
    ∷ ("Atan", "TranslateUnaryOp<opset::Atan>")
    ∷ ("Atanh", "TranslateUnaryOp<opset::Atanh>")
    ∷ ("AvgPool", "TranslateAvgPoolOp")
    ∷ ("BiasAdd", "TranslateBiasAddOp")
    ∷ ("Cast", "TranslateCastOp")
    ∷ ("Ceil", "TranslateUnaryOp<opset::Ceiling>")
    ∷ ("ConcatV2", "TranslateConcatV2Op")
    ∷ ("Const", "TranslateConstOp")
    ∷ ("Conv2D", "TranslateConv2DOp")
    ∷ ("Conv2DBackpropInput", "TranslateConv2DBackpropInputOp")
    ∷ ("Conv3D", "TranslateConv3DOp")
    ∷ ("Cos", "TranslateUnaryOp<opset::Cos>")
    ∷ ("Cosh", "TranslateUnaryOp<opset::Cosh>")
    ∷ ("Cumsum", "TranslateCumsumOp")
    ∷ ("DepthToSpace", "TranslateDepthToSpaceOp")
    ∷ ("DepthwiseConv2dNative", "TranslateDepthwiseConv2dNativeOp")
    ∷ ("Equal", "TranslateBinaryOp<opset::Equal>")
    ∷ ("Exp", "TranslateUnaryOp<opset::Exp>")
    ∷ ("ExpandDims", "TranslateExpandDimsOp")
    ∷ ("Fill", "TranslateFillOp")
    ∷ ("Floor", "TranslateUnaryOp<opset::Floor>")
    ∷ ("FloorDiv", "TranslateFloorDivOp")
    ∷ ("FloorMod", "TranslateBinaryOp<opset::FloorMod>")
    ∷ ("FusedBatchNorm", "TranslateFusedBatchNormOp")
    ∷ ("FusedBatchNormV2", "TranslateFusedBatchNormOp")
    ∷ ("FusedBatchNormV3", "TranslateFusedBatchNormOp")
    ∷ ("Gather", "TranslateGatherOp")
    ∷ ("GatherV2", "TranslateGatherV2Op")
    ∷ ("_FusedConv2D", "TranslateFusedConv2DOp")
    ∷ ("_FusedMatMul", "TranslateFusedMatMulOp")
    ∷ ("Greater", "TranslateBinaryOp<opset::Greater>")
    ∷ ("GreaterEqual", "TranslateBinaryOp<opset::GreaterEqual>")
    ∷ ("Identity", "TranslateIdentityOp")
    ∷ ("IsFinite", "TranslateIsFiniteOp")
    ∷ ("L2Loss", "TranslateL2LossOp")
    ∷ ("LogSoftmax", "TranslateLogSoftmaxOp")
    ∷ ("Less", "TranslateBinaryOp<opset::Less>")
    ∷ ("LessEqual", "TranslateBinaryOp<opset::LessEqual>")
    ∷ ("Log", "TranslateUnaryOp<opset::Log>")
    ∷ ("Log1p", "TranslateLog1pOp")
    ∷ ("LogicalAnd", "TranslateBinaryOp<opset::LogicalAnd>")
    ∷ ("LogicalNot", "TranslateUnaryOp<opset::LogicalNot>")
    ∷ ("LogicalOr", "TranslateBinaryOp<opset::LogicalOr>")
    ∷ ("LRN", "TranslateLRNOp")
    ∷ ("MatMul", "TranslateMatMulOp")
    ∷ ("Max", "TranslateDirectReduceOp<opset::ReduceMax>")
    ∷ ("Maximum", "TranslateBinaryOp<opset::Maximum>")
    ∷ ("MaxPool", "TranslateMaxPoolOp<2>")
    ∷ ("MaxPool3D", "TranslateMaxPoolOp<3>")
    ∷ ("NonMaxSuppressionV2", "TranslateNonMaxSuppressionV2Op")
    ∷ ("Mean", "TranslateDirectReduceOp<opset::ReduceMean>")
    ∷ ("Min", "TranslateDirectReduceOp<opset::ReduceMin>")
    ∷ ("Minimum", "TranslateBinaryOp<opset::Minimum>")
    ∷ ("MirrorPad", "TranslatePadOp")
    ∷ ("Mul", "TranslateBinaryOp<opset::Multiply>")
    ∷ ("Mod", "TranslateBinaryOp<opset::Mod>")
    ∷ ("Neg", "TranslateUnaryOp<opset::Negative>")
    ∷ ("NotEqual", "TranslateBinaryOp<opset::NotEqual>")
    ∷ (
      "NoOp",
      "[](const Node*, const std::vector<const Tensor*>&, Builder::OpMap&) { return Status::OK();",
    )
    ∷ ("OneHot", "TranslateOneHotOp")
    ∷ ("Pack", "TranslatePackOp")
    ∷ ("Pad", "TranslatePadOp")
    ∷ ("PadV2", "TranslatePadOp")
    ∷ ("Pow", "TranslateBinaryOp<opset::Power>")
    ∷ ("PreventGradient", "TranslateIdentityOp")
    ∷ ("Prod", "TranslateDirectReduceOp<opset::ReduceProd>")
    ∷ ("Range", "TranslateRangeOp")
    ∷ ("Rank", "TranslateRankOp")
    ∷ ("RealDiv", "TranslateBinaryOp<opset::Divide>")
    ∷ ("Reciprocal", "TranslateReciprocalOp")
    ∷ ("Relu", "TranslateUnaryOp<opset::Relu>")
    ∷ ("Relu6", "TranslateRelu6Op")
    ∷ ("Reshape", "TranslateReshapeOp")
    ∷ ("Rsqrt", "TranslateRsqrtOp")
    ∷ ("Select", "TranslateSelectOp")
    ∷ ("SelectV2", "TranslateSelectOp")
    ∷ ("Shape", "TranslateShapeOp")
    ∷ ("Sigmoid", "TranslateUnaryOp<opset::Sigmoid>")
    ∷ ("Sin", "TranslateUnaryOp<opset::Sin>")
    ∷ ("Sinh", "TranslateUnaryOp<opset::Sinh>")
    ∷ ("Size", "TranslateSizeOp")
    ∷ ("Sign", "TranslateUnaryOp<opset::Sign>")
    ∷ ("Slice", "TranslateSliceOp")
    ∷ ("Snapshot", "TranslateIdentityOp")
    ∷ ("Softmax", "TranslateSoftmaxOp")
    ∷ ("Softplus", "TranslateUnaryOp<opset::SoftPlus>")
    ∷ ("SpaceToDepth", "TranslateSpaceToDepthOp")
    ∷ ("Split", "TranslateSplitOp")
    ∷ ("SplitV", "TranslateSplitVOp")
    ∷ ("Sqrt", "TranslateUnaryOp<opset::Sqrt>")
    ∷ ("Square", "TranslateSquareOp")
    ∷ ("SquaredDifference", "TranslateBinaryOp<opset::SquaredDifference>")
    ∷ ("Squeeze", "TranslateSqueezeOp")
    ∷ ("StridedSlice", "TranslateStridedSliceOp")
    ∷ ("Sub", "TranslateBinaryOp<opset::Subtract>")
    ∷ ("Sum", "TranslateDirectReduceOp<opset::ReduceSum>")
    ∷ ("Tan", "TranslateUnaryOp<opset::Tan>")
    ∷ ("Tanh", "TranslateUnaryOp<opset::Tanh>")
    ∷ ("Tile", "TranslateTileOp")
    ∷ ("TopKV2", "TranslateTopKV2Op")
    ∷ ("Transpose", "TranslateTransposeOp")
    ∷ ("Unpack", "TranslateUnpackOp")
    ∷ ("Where", "TranslateWhereOp")
    ∷ ("Xdivy", "TranslateXdivyOp")
    ∷ ("ZerosLike", "TranslateZerosLikeOp")
    ∷ []

-- `TRANSLATE_OP_MAP.at(op->type_string())` and the handler of its exception
unfoldable pub handler_of : String → Status String
unfolding lookup translate_op_map
handler_of type_string = elim (lookup type_string translate_op_map) [
  | some handler ↦ ok handler
  | none ↦ err invalid_argument
]
