-- ===== src/Builder/Library.antt =====
-- What the translator uses of the nGraph library and of TensorFlow's tensors, as parameters, and the
-- element types, which ngraph_bridge/tf_utils.cc converts.
use ngraph.Prelude.{ℕ, String, Bool, Option, List, nat_eq}
use ngraph.Prelude.Int.{ℤ}
use ngraph.Prelude.Status.{Status, ok, err, unimplemented}
use ngraph.Graph.{
  DataType, dt_float, dt_double, dt_half, dt_bfloat16, dt_int8, dt_int16, dt_int32, dt_int64,
  dt_uint8, dt_uint16, dt_uint32, dt_uint64, dt_bool, dt_qint8, dt_quint8, dt_qint32, dt_other,
  Node,
}

-- `ngraph::element`
pub data ElementType : Type 0 where
  boolean bf16 f16 f32 f64 i8 i16 i32 i64 u8 u16 u32 u64 : ElementType

-- an argument of a node that is not a value: of a `Constant` the type, the shape and the numbers
pub data Argument : Type 0 where
  element : ElementType → Argument
  shape : List ℕ → Argument
  number : ℤ → Argument
  numbers : List ℤ → Argument
  flag : Bool → Argument
  word : String → Argument

-- `construct` is ConstructNgNode or make_shared for the class of that name in `opset`; an
-- exception of the class is the error `thrown`. `flat` reads a tensor's
-- elements as integers, without what a float has after the point.
pub record Library : Type 1 where
  pub Value : Type 0
  pub Tensor : Type 0
  pub construct : String → List Value → List Argument → Status Value
  pub output : Value → ℕ → Value
  pub get_shape : Value → Status (List ℕ)
  pub get_element_type : Value → ElementType
  pub dtype : Tensor → DataType
  pub flat : Tensor → List ℤ
  pub from_proto : Node → Option Tensor

unfoldable pub to_element_type : DataType → Status ElementType
to_element_type dt_float = ok ElementType.f32
to_element_type dt_double = ok ElementType.f64
to_element_type dt_int32 = ok ElementType.i32
to_element_type dt_uint8 = ok ElementType.u8
to_element_type dt_int8 = ok ElementType.i8
to_element_type dt_uint16 = ok ElementType.u16
to_element_type dt_int64 = ok ElementType.i64
to_element_type dt_uint32 = ok ElementType.u32
to_element_type dt_uint64 = ok ElementType.u64
to_element_type dt_bool = ok ElementType.boolean
to_element_type dt_qint8 = ok ElementType.i8
to_element_type dt_quint8 = ok ElementType.u8
to_element_type dt_bfloat16 = ok ElementType.bf16
to_element_type dt_half = ok ElementType.f16
to_element_type dt_int16 = err unimplemented
to_element_type dt_qint32 = ok ElementType.i32
to_element_type (dt_other n) = err unimplemented
