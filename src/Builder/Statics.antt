-- ===== src/Builder/Statics.antt =====
-- The static inputs of an op, GetStaticNodeTensor and GetStaticInputVector of
-- ngraph_bridge/ngraph_builder.cc.
use ngraph.Prelude.{
  ℕ, Bool, true, false, Option, none, some, List, map, ◌==◌, string_eq, nat_eq, get_elem?,
}
use ngraph.Prelude.Int.{ℤ, pos, negsuc}
use ngraph.Prelude.Words.{to_int, to_int64}
use ngraph.Prelude.Status.{Status, ok, err, internal, fatal, ◌>>=◌}
use ngraph.Graph.{
  DataType, dt_float, dt_double, dt_int8, dt_int16, dt_int32, dt_int64, dt_uint8, dt_uint16,
  dt_uint32, dt_uint64, dt_bool, Node, Graph, is_arg, get_int,
}
use ngraph.Builder.Library.{Library}
use ngraph.Builder.Inputs.{require, input_node}

-- the types that TensorDataToVector converts to integers
abbrev pub is_convertible : DataType → Bool
is_convertible dt_float = true
is_convertible dt_double = true
is_convertible dt_int8 = true
is_convertible dt_int16 = true
is_convertible dt_int32 = true
is_convertible dt_int64 = true
is_convertible dt_uint8 = true
is_convertible dt_uint16 = true
is_convertible dt_uint32 = true
is_convertible dt_uint64 = true
is_convertible dt_bool = true
is_convertible _ = false

-- `dt == DataTypeToEnum<T>::value`, for the two types that an integer vector has
abbrev pub is_same : DataType → DataType → Bool
is_same dt_int32 dt_int32 = true
is_same dt_int64 dt_int64 = true
is_same _ _ = false

-- the conversion `Tvector(data[i])` of an integer to `int32`, or else `int64`
abbrev pub convert : DataType → ℤ → ℤ
unfolding to_int to_int64
convert dt_int32 a = to_int a
convert _ a = to_int64 a

-- `map[index]` outside of the vector is undefined.
abbrev pub static_at {ℓ} : {A : Type ℓ} → List (Option A) → ℤ → Status (Option A)
static_at m (negsuc i) = err fatal
static_at m (pos i) = elim (get_elem? m i) [ none ↦ err fatal | some t ↦ ok t ]

module _ (lib : Library) where
  unfoldable pub get_static_node_tensor : Node → List (Option lib.Tensor) → Status lib.Tensor
  unfolding get_int
  get_static_node_tensor n static_input_map = elim (is_arg n) [
    | true ↦ require n "index" get_int >>= λ i. static_at static_input_map i >>= λ t. elim t [
      | none ↦ err internal
      | some tensor ↦ ok tensor
    ]
    | false ↦ elim (n.type_string == "Const") [
      | true ↦ elim (lib.from_proto n) [ none ↦ err internal | some tensor ↦ ok tensor ]
      | false ↦ err internal
    ]
  ]

  -- for a vector of the integers of the type `T`
  unfoldable pub tensor_data_to_vector : DataType → lib.Tensor → Status (List ℤ)
  unfolding to_int to_int64
  tensor_data_to_vector T t = elim (is_same (lib.dtype t) T) [
    | true ↦ ok (lib.flat t)
    | false ↦ elim (is_convertible (lib.dtype t)) [
      | true ↦ ok (map (convert T) (lib.flat t))
      | false ↦ err internal
    ]
  ]

  unfoldable pub get_static_input_vector :
      DataType → Graph → List (Option lib.Tensor) → Node → ℕ → Status (List ℤ)
  unfolding input_node get_static_node_tensor tensor_data_to_vector
  get_static_input_vector T g static_input_map op input_index = do
    n ← input_node g op input_index
    t ← get_static_node_tensor n static_input_map
    tensor_data_to_vector T t
