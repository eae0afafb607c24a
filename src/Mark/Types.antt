-- ===== src/Mark/Types.antt =====
-- The element types that the marking pass allows, and its table of type constraints:
-- GetTypeConstraintMap and TypeConstraintOk of ngraph_bridge/mark_for_clustering.cc.
use ngraph.Prelude.{
  ℕ, ◌+◌, String, Bool, true, false, ◌&&◌, ◌||◌, none, some, List, [], ◌∷◌, ◌==◌, nat_eq, string_eq,
  lookup,
}
use ngraph.Graph.{
  Node, DataType, dt_float, dt_double, dt_half, dt_bfloat16, dt_int8, dt_int16, dt_int32, dt_int64,
  dt_uint8, dt_uint16, dt_uint32, dt_uint64, dt_bool, dt_qint8, dt_quint8, dt_qint32, dt_other,
  get_dtype,
}

abbrev ngraph_dtypes : List DataType
ngraph_dtypes =
    dt_float ∷ dt_int8 ∷ dt_int16 ∷ dt_int32 ∷ dt_int64 ∷ dt_uint8 ∷ dt_uint16 ∷ dt_uint32
    ∷ dt_uint64 ∷ dt_bool ∷ dt_qint8 ∷ dt_quint8 ∷ dt_bfloat16 ∷ []

abbrev ngraph_numeric_dtypes : List DataType
ngraph_numeric_dtypes =
    dt_float ∷ dt_int8 ∷ dt_int16 ∷ dt_int32 ∷ dt_int64 ∷ dt_uint8 ∷ dt_uint16 ∷ dt_uint32
    ∷ dt_uint64 ∷ dt_bfloat16 ∷ []

abbrev ngraph_index_dtypes : List DataType
ngraph_index_dtypes = dt_int32 ∷ dt_int64 ∷ []

abbrev ngraph_real_dtypes : List DataType
ngraph_real_dtypes = dt_float ∷ dt_double ∷ dt_bfloat16 ∷ []

abbrev float_only : List DataType
float_only = dt_float ∷ []

unfoldable pub get_type_constraint_map : List (String × List (String × List DataType))
get_type_constraint_map =
    ("Abs", ("T", ngraph_numeric_dtypes) ∷ [])
    ∷ ("Acos", ("T", ngraph_numeric_dtypes) ∷ [])
    ∷ ("Acosh", ("T", ngraph_real_dtypes) ∷ [])
    ∷ ("Add", ("T", ngraph_numeric_dtypes) ∷ [])
    ∷ ("AddN", ("T", ngraph_numeric_dtypes) ∷ [])
    ∷ ("AddV2", ("T", ngraph_numeric_dtypes) ∷ [])
    ∷ ("Any", ("Tidx", ngraph_index_dtypes) ∷ [])
    ∷ ("All", ("Tidx", ngraph_index_dtypes) ∷ [])
    ∷ ("ArgMax", ("T", ngraph_numeric_dtypes) ∷ ("Tidx", ngraph_index_dtypes) ∷ [])
    ∷ ("ArgMin", ("T", ngraph_numeric_dtypes) ∷ ("Tidx", ngraph_index_dtypes) ∷ [])
    ∷ ("Asin", ("T", ngraph_numeric_dtypes) ∷ [])
    ∷ ("Asinh", ("T", ngraph_real_dtypes) ∷ [])
    ∷ ("Atan", ("T", ngraph_numeric_dtypes) ∷ [])
    ∷ ("Atanh", ("T", ngraph_real_dtypes) ∷ [])
    ∷ ("AvgPool", ("T", ngraph_numeric_dtypes) ∷ [])
    ∷ ("BiasAdd", ("T", ngraph_numeric_dtypes) ∷ [])
    ∷ ("Cast", ("SrcT", ngraph_dtypes) ∷ ("DstT", ngraph_dtypes) ∷ [])
    ∷ ("Ceil", ("T", ngraph_real_dtypes) ∷ [])
    ∷ ("ConcatV2", ("T", ngraph_dtypes) ∷ ("Tidx", ngraph_index_dtypes) ∷ [])
    ∷ ("Const", ("dtype", ngraph_dtypes) ∷ [])
    ∷ ("Conv2D", ("T", ngraph_numeric_dtypes) ∷ [])
    ∷ ("Conv2DBackpropInput", ("T", ngraph_numeric_dtypes) ∷ [])
    ∷ ("Conv3D", ("T", ngraph_numeric_dtypes) ∷ [])
    ∷ ("Cos", ("T", ngraph_real_dtypes) ∷ [])
    ∷ ("Cosh", ("T", ngraph_real_dtypes) ∷ [])
    ∷ ("Cumsum", ("T", ngraph_numeric_dtypes) ∷ ("Tidx", ngraph_index_dtypes) ∷ [])
    ∷ ("DepthToSpace", ("T", ngraph_dtypes) ∷ [])
    ∷ ("DepthwiseConv2dNative", ("T", ngraph_numeric_dtypes) ∷ [])
    ∷ ("Equal", ("T", ngraph_dtypes) ∷ [])
    ∷ ("Exp", ("T", ngraph_numeric_dtypes) ∷ [])
    ∷ ("ExpandDims", ("T", ngraph_dtypes) ∷ [])
    ∷ ("Floor", ("T", ngraph_numeric_dtypes) ∷ [])
    ∷ ("FloorDiv", ("T", float_only) ∷ [])
    ∷ ("FloorMod", ("T", float_only) ∷ [])
    ∷ ("FusedBatchNorm", ("T", ngraph_numeric_dtypes) ∷ [])
    ∷ ("FusedBatchNormV2", ("T", float_only) ∷ [])
    ∷ ("FusedBatchNormV3", ("T", float_only) ∷ [])
    ∷ ("Gather", ("Tparams", ngraph_dtypes) ∷ ("Tindices", ngraph_index_dtypes) ∷ [])
    ∷ (
      "GatherV2",
      ("Tparams", ngraph_dtypes)
          ∷ ("Tindices", ngraph_index_dtypes)
          ∷ ("Taxis", ngraph_index_dtypes)
          ∷ [],
    )
    ∷ ("_FusedConv2D", ("T", ngraph_real_dtypes) ∷ [])
    ∷ ("_FusedMatMul", ("T", ngraph_real_dtypes) ∷ [])
    ∷ ("Greater", ("T", ngraph_dtypes) ∷ [])
    ∷ ("GreaterEqual", ("T", ngraph_dtypes) ∷ [])
    ∷ ("Identity", ("T", ngraph_dtypes) ∷ [])
    ∷ ("IsFinite", ("T", ngraph_real_dtypes) ∷ [])
    ∷ ("L2Loss", ("T", ngraph_numeric_dtypes) ∷ [])
    ∷ ("LogSoftmax", ("T", ngraph_real_dtypes) ∷ [])
    ∷ ("Less", ("T", ngraph_dtypes) ∷ [])
    ∷ ("LessEqual", ("T", ngraph_dtypes) ∷ [])
    ∷ ("Log", ("T", ngraph_numeric_dtypes) ∷ [])
    ∷ ("Log1p", ("T", ngraph_real_dtypes) ∷ [])
    ∷ ("LRN", ("T", float_only) ∷ [])
    ∷ ("MatMul", ("T", ngraph_numeric_dtypes) ∷ [])
    ∷ ("Max", ("T", ngraph_numeric_dtypes) ∷ ("Tidx", ngraph_index_dtypes) ∷ [])
    ∷ ("Maximum", ("T", ngraph_numeric_dtypes) ∷ [])
    ∷ ("MaxPool", ("T", ngraph_numeric_dtypes) ∷ [])
    ∷ ("MaxPool3D", ("T", ngraph_numeric_dtypes) ∷ [])
    ∷ ("Mean", ("T", ngraph_numeric_dtypes) ∷ ("Tidx", ngraph_index_dtypes) ∷ [])
    ∷ ("Min", ("T", ngraph_numeric_dtypes) ∷ ("Tidx", ngraph_index_dtypes) ∷ [])
    ∷ ("Minimum", ("T", ngraph_numeric_dtypes) ∷ [])
    ∷ ("MirrorPad", ("T", ngraph_dtypes) ∷ ("Tpaddings", ngraph_index_dtypes) ∷ [])
    ∷ ("Mul", ("T", ngraph_numeric_dtypes) ∷ [])
    ∷ ("Mod", ("T", ngraph_numeric_dtypes) ∷ [])
    ∷ ("Neg", ("T", ngraph_numeric_dtypes) ∷ [])
    ∷ ("NotEqual", ("T", ngraph_dtypes) ∷ [])
    ∷ ("NonMaxSuppressionV2", ("T", float_only) ∷ [])
    ∷ ("OneHot", ("T", ngraph_dtypes) ∷ [])
    ∷ ("Pack", ("T", ngraph_dtypes) ∷ [])
    ∷ ("Pad", ("T", ngraph_dtypes) ∷ ("Tpaddings", ngraph_index_dtypes) ∷ [])
    ∷ ("PadV2", ("T", ngraph_dtypes) ∷ ("Tpaddings", ngraph_index_dtypes) ∷ [])
    ∷ ("Pow", ("T", ngraph_numeric_dtypes) ∷ [])
    ∷ ("PreventGradient", ("T", ngraph_dtypes) ∷ [])
    ∷ ("Prod", ("T", ngraph_numeric_dtypes) ∷ ("Tidx", ngraph_index_dtypes) ∷ [])
    ∷ ("Range", ("Tidx", ngraph_numeric_dtypes) ∷ [])
    ∷ ("Rank", ("T", ngraph_numeric_dtypes) ∷ [])
    ∷ ("RealDiv", ("T", ngraph_numeric_dtypes) ∷ [])
    ∷ ("Reciprocal", ("T", ngraph_numeric_dtypes) ∷ [])
    ∷ ("Relu", ("T", ngraph_numeric_dtypes) ∷ [])
    ∷ ("Relu6", ("T", ngraph_numeric_dtypes) ∷ [])
    ∷ ("Reshape", ("T", ngraph_dtypes) ∷ ("Tshape", ngraph_index_dtypes) ∷ [])
    ∷ ("Rsqrt", ("T", ngraph_dtypes) ∷ [])
    ∷ ("Select", ("T", ngraph_dtypes) ∷ [])
    ∷ ("SelectV2", ("T", ngraph_dtypes) ∷ [])
    ∷ ("Shape", ("T", ngraph_dtypes) ∷ ("out_type", ngraph_index_dtypes) ∷ [])
    ∷ ("Sigmoid", ("T", ngraph_numeric_dtypes) ∷ [])
    ∷ ("Sign", ("T", ngraph_numeric_dtypes) ∷ [])
    ∷ ("Sin", ("T", ngraph_real_dtypes) ∷ [])
    ∷ ("Sinh", ("T", ngraph_real_dtypes) ∷ [])
    ∷ ("Size", ("T", ngraph_dtypes) ∷ ("out_type", ngraph_index_dtypes) ∷ [])
    ∷ ("Slice", ("T", ngraph_dtypes) ∷ ("Index", ngraph_index_dtypes) ∷ [])
    ∷ ("Snapshot", ("T", ngraph_dtypes) ∷ [])
    ∷ ("Softmax", ("T", ngraph_numeric_dtypes) ∷ [])
    ∷ ("Softplus", ("T", ngraph_real_dtypes) ∷ [])
    ∷ ("SpaceToDepth", ("T", ngraph_dtypes) ∷ [])
    ∷ ("Split", ("T", ngraph_dtypes) ∷ [])
    ∷ ("SplitV", ("T", ngraph_dtypes) ∷ ("Tlen", ngraph_index_dtypes) ∷ [])
    ∷ ("Sqrt", ("T", ngraph_dtypes) ∷ [])
    ∷ ("Square", ("T", ngraph_dtypes) ∷ [])
    ∷ ("SquaredDifference", ("T", ngraph_dtypes) ∷ [])
    ∷ ("Squeeze", ("T", ngraph_dtypes) ∷ [])
    ∷ ("StridedSlice", ("T", ngraph_dtypes) ∷ ("Index", ngraph_index_dtypes) ∷ [])
    ∷ ("Sub", ("T", ngraph_numeric_dtypes) ∷ [])
    ∷ ("Sum", ("T", ngraph_numeric_dtypes) ∷ ("Tidx", ngraph_index_dtypes) ∷ [])
    ∷ ("Tan", ("T", ngraph_numeric_dtypes) ∷ [])
    ∷ ("Tanh", ("T", ngraph_numeric_dtypes) ∷ [])
    ∷ ("Tile", ("T", ngraph_numeric_dtypes) ∷ ("Tmultiples", ngraph_index_dtypes) ∷ [])
    ∷ ("TopKV2", ("T", ngraph_numeric_dtypes) ∷ [])
    ∷ ("Transpose", ("T", ngraph_dtypes) ∷ ("Tperm", ngraph_index_dtypes) ∷ [])
    ∷ ("Unpack", ("T", ngraph_dtypes) ∷ [])
    ∷ ("Where", ("T", ngraph_dtypes) ∷ [])
    ∷ ("Xdivy", ("T", ngraph_real_dtypes) ∷ [])
    ∷ ("ZerosLike", ("T", ngraph_numeric_dtypes) ∷ [])
    ∷ []

-- TensorFlow's number for each type
abbrev dtype_number : DataType → ℕ
dtype_number dt_float = 1
dtype_number dt_double = 2
dtype_number dt_int32 = 3
dtype_number dt_uint8 = 4
dtype_number dt_int16 = 5
dtype_number dt_int8 = 6
dtype_number dt_int64 = 9
dtype_number dt_bool = 10
dtype_number dt_qint8 = 11
dtype_number dt_quint8 = 12
dtype_number dt_qint32 = 13
dtype_number dt_bfloat16 = 14
dtype_number dt_uint16 = 17
dtype_number dt_half = 19
dtype_number dt_uint32 = 22
dtype_number dt_uint64 = 23
dtype_number (dt_other n) = 24 + n

-- `std::find` in the allowed types
unfoldable pub is_allowed : List DataType → DataType → Bool
is_allowed [] dt = false
is_allowed (d ∷ ds) dt = dtype_number d == dtype_number dt || is_allowed ds dt

unfoldable pub all_allowed : Node → List (String × List DataType) → Bool
unfolding is_allowed get_dtype
all_allowed n [] = true
all_allowed n ((name, allowed) ∷ rest) = elim (get_dtype n name) [
  | none ↦ false
  | some dt ↦ is_allowed allowed dt && all_allowed n rest
]

unfoldable pub type_constraint_ok : Node → Bool
unfolding get_type_constraint_map all_allowed lookup
type_constraint_ok n = elim (lookup n.type_string get_type_constraint_map) [
  | none ↦ true
  | some constraints ↦ all_allowed n constraints
]
