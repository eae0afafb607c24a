-- ===== src/Mark/Confirm.antt =====
-- The confirmation functions: GetConfirmationMap and ConfirmationOk of
-- ngraph_bridge/mark_for_clustering.cc. A function of the map is named by what it does.
use ngraph.Prelude.{
  String, Bool, true, false, not, none, some, List, [], ◌∷◌, ◌==◌, string_eq, lookup,
}
use ngraph.Prelude.Status.{Status, ok, err, invalid_argument, not_found}
use ngraph.Graph.{Node, flag, text, get_flag}

pub data Confirmation : Type 0 where
  simple fused_batch_norm depth_space top_k : Confirmation

unfoldable pub get_confirmation_map : List (String × Confirmation)
get_confirmation_map =
    ("Abs", simple)
    ∷ ("Acos", simple)
    ∷ ("Acosh", simple)
    ∷ ("Add", simple)
    ∷ ("AddN", simple)
    ∷ ("AddV2", simple)
    ∷ ("Any", simple)
    ∷ ("All", simple)
    ∷ ("ArgMax", simple)
    ∷ ("ArgMin", simple)
    ∷ ("Asin", simple)
    ∷ ("Asinh", simple)
    ∷ ("Atan", simple)
    ∷ ("Atanh", simple)
    ∷ ("AvgPool", simple)
    ∷ ("BiasAdd", simple)
    ∷ ("Cast", simple)
    ∷ ("Ceil", simple)
    ∷ ("ConcatV2", simple)
    ∷ ("Const", simple)
    ∷ ("Conv2D", simple)
    ∷ ("Conv2DBackpropInput", simple)
    ∷ ("Conv3D", simple)
    ∷ ("Cos", simple)
    ∷ ("Cosh", simple)
    ∷ ("Cumsum", simple)
    ∷ ("DepthwiseConv2dNative", simple)
    ∷ ("DepthToSpace", depth_space)
    ∷ ("Equal", simple)
    ∷ ("Exp", simple)
    ∷ ("ExpandDims", simple)
    ∷ ("Fill", simple)
    ∷ ("Floor", simple)
    ∷ ("FloorDiv", simple)
    ∷ ("FloorMod", simple)
    ∷ ("FusedBatchNorm", fused_batch_norm)
    ∷ ("FusedBatchNormV2", fused_batch_norm)
    ∷ ("FusedBatchNormV3", fused_batch_norm)
    ∷ ("_FusedConv2D", simple)
    ∷ ("Gather", simple)
    ∷ ("GatherV2", simple)
    ∷ ("_FusedMatMul", simple)
    ∷ ("Greater", simple)
    ∷ ("GreaterEqual", simple)
    ∷ ("Identity", simple)
    ∷ ("IsFinite", simple)
    ∷ ("L2Loss", simple)
    ∷ ("LogSoftmax", simple)
    ∷ ("Less", simple)
    ∷ ("LessEqual", simple)
    ∷ ("Log", simple)
    ∷ ("Log1p", simple)
    ∷ ("LogicalAnd", simple)
    ∷ ("LogicalNot", simple)
    ∷ ("LogicalOr", simple)
    ∷ ("LRN", simple)
    ∷ ("MatMul", simple)
    ∷ ("Max", simple)
    ∷ ("Maximum", simple)
    ∷ ("MaxPool", simple)
    ∷ ("MaxPool3D", simple)
    ∷ ("Mean", simple)
    ∷ ("Min", simple)
    ∷ ("Minimum", simple)
    ∷ ("MirrorPad", simple)
    ∷ ("Mul", simple)
    ∷ ("Mod", simple)
    ∷ ("Neg", simple)
    ∷ ("NotEqual", simple)
    ∷ ("NonMaxSuppressionV2", simple)
    ∷ ("NoOp", simple)
    ∷ ("OneHot", simple)
    ∷ ("Pad", simple)
    ∷ ("PadV2", simple)
    ∷ ("Pow", simple)
    ∷ ("PreventGradient", simple)
    ∷ ("Prod", simple)
    ∷ ("Range", simple)
    ∷ ("Rank", simple)
    ∷ ("RealDiv", simple)
    ∷ ("Reciprocal", simple)
    ∷ ("Relu", simple)
    ∷ ("Relu6", simple)
    ∷ ("Reshape", simple)
    ∷ ("Rsqrt", simple)
    ∷ ("Select", simple)
    ∷ ("SelectV2", simple)
    ∷ ("Shape", simple)
    ∷ ("Sigmoid", simple)
    ∷ ("Sign", simple)
    ∷ ("Sin", simple)
    ∷ ("Sinh", simple)
    ∷ ("Size", simple)
    ∷ ("Slice", simple)
    ∷ ("Snapshot", simple)
    ∷ ("Softmax", simple)
    ∷ ("Softplus", simple)
    ∷ ("SpaceToDepth", depth_space)
    ∷ ("Split", simple)
    ∷ ("SplitV", simple)
    ∷ ("Sqrt", simple)
    ∷ ("Square", simple)
    ∷ ("SquaredDifference", simple)
    ∷ ("Squeeze", simple)
    ∷ ("StridedSlice", simple)
    ∷ ("Pack", simple)
    ∷ ("Sub", simple)
    ∷ ("Sum", simple)
    ∷ ("Tan", simple)
    ∷ ("Tanh", simple)
    ∷ ("Tile", simple)
    ∷ ("TopKV2", top_k)
    ∷ ("Transpose", simple)
    ∷ ("Unpack", simple)
    ∷ ("Where", simple)
    ∷ ("Xdivy", simple)
    ∷ ("ZerosLike", simple)
    ∷ []

unfoldable pub confirm : Confirmation → Node → Status Bool
unfolding get_flag lookup
confirm simple n = ok true
confirm fused_batch_norm n = elim (get_flag n "is_training") [
  | some tf_is_training ↦ ok (not tf_is_training)
  | none ↦ ok false
]
confirm depth_space n = elim (lookup "data_format" n.attrs) [
  | some (text tf_data_format) ↦ ok (not (tf_data_format == "NCHW_VECT_C"))
  | some _ ↦ err invalid_argument
  | none ↦ err not_found
]
confirm top_k n = elim (lookup "sorted" n.attrs) [
  | some (flag sorted) ↦ ok sorted
  | some _ ↦ err invalid_argument
  | none ↦ err not_found
]

unfoldable pub confirmation_ok : List (String × Confirmation) → Node → Status Bool
unfolding confirm lookup
confirmation_ok confirmation_function_map n =
    elim (lookup n.type_string confirmation_function_map) [ some c ↦ confirm c n | none ↦ ok false ]
