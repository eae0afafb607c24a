-- ===== src/Graph.antt =====
-- The TensorFlow graph, as far as the passes of ngraph_bridge read and write it: nodes with their
-- attributes, and edges by the ids of their ends. A pointer to a node or an edge is its id.
use ngraph.Prelude.{
  ℕ, zero, suc, String, Bool, ◌&&◌, ◌||◌, Option, none, some, List, [], ◌∷◌, map, ltb,
  if◌then◌else◌, ◌==◌, lookup, assign, remove,
}
use ngraph.Prelude.Int.{ℤ, pos, negsuc, int_eq}
use ngraph.Prelude.{nat_eq, string_eq}
use ngraph.Prelude.Status.{Status, ok, err, invalid_argument, ◌>>=◌}

-- TensorFlow's element types; `dt_other` is one that the bridge never names, by its number less 24.
pub data DataType : Type 0 where
  dt_float dt_double dt_half dt_bfloat16 : DataType
  dt_int8 dt_int16 dt_int32 dt_int64 : DataType
  dt_uint8 dt_uint16 dt_uint32 dt_uint64 : DataType
  dt_bool dt_qint8 dt_quint8 dt_qint32 : DataType
  dt_other : ℕ → DataType

pub data AttrValue : Type 0 where
  flag : Bool → AttrValue
  int : ℤ → AttrValue
  ints : List ℤ → AttrValue
  text : String → AttrValue
  dtype : DataType → AttrValue
  dtypes : List DataType → AttrValue

pub record Node : Type 0 where
  pub id : ℕ
  pub name : String
  pub type_string : String
  pub num_inputs : ℕ
  pub device : String
  pub attrs : List (String × AttrValue)

-- A control edge has both slots -1.
pub record Edge : Type 0 where
  pub id : ℕ
  pub src : ℕ
  pub src_output : ℤ
  pub dst : ℕ
  pub dst_input : ℤ

pub record Graph : Type 0 where
  pub nodes : List Node
  pub edges : List Edge

abbrev pub ids : Graph → List ℕ
ids g = map (λ n. n.id) g.nodes

-- The source has id 0 and the sink id 1; every other node is an op.
unfoldable pub is_op : ℕ → Bool
is_op v = ltb 1 v

unfoldable pub is_next_iteration : Node → Bool
is_next_iteration n = n.type_string == "NextIteration" || n.type_string == "RefNextIteration"

unfoldable pub is_control_edge : Edge → Bool
is_control_edge e = e.src_output == negsuc 0

-- `GetNodeAttr(n->attrs(), name, &value)` succeeds if the attribute is there with the type of
-- `value`; `none` is its failure.
-- TensorFlow's `Node::IsArg` and `Node::IsRetval`
abbrev pub is_arg : Node → Bool
is_arg n = n.type_string == "_Arg" || n.type_string == "_DeviceArg"

abbrev pub is_retval : Node → Bool
is_retval n = n.type_string == "_Retval" || n.type_string == "_DeviceRetval"

unfoldable pub get_flag : Node → String → Option Bool
get_flag n name = elim (lookup name n.attrs) [ some (flag b) ↦ some b | _ ↦ none ]

unfoldable pub get_int : Node → String → Option ℤ
get_int n name = elim (lookup name n.attrs) [ some (int i) ↦ some i | _ ↦ none ]

unfoldable pub get_ints : Node → String → Option (List ℤ)
get_ints n name = elim (lookup name n.attrs) [ some (ints l) ↦ some l | _ ↦ none ]

unfoldable pub get_text : Node → String → Option String
get_text n name = elim (lookup name n.attrs) [ some (text s) ↦ some s | _ ↦ none ]

unfoldable pub get_dtype : Node → String → Option DataType
get_dtype n name = elim (lookup name n.attrs) [ some (dtype d) ↦ some d | _ ↦ none ]

-- `AddAttr` writes, and `ClearAttr` removes.
unfoldable pub add_attr : Node → String → AttrValue → Node
add_attr n name v = record n { attrs = assign name v n.attrs }

unfoldable pub clear_attr : Node → String → Node
clear_attr n name = record n { attrs = remove name n.attrs }

-- The node with an id. Both ends of an edge are nodes of its graph, so the blank is never seen.
abbrev pub blank : ℕ → Node
blank v = record { id = v; name = ""; type_string = ""; num_inputs = 0; device = ""; attrs = [] }

unfoldable pub find_node : List Node → ℕ → Node
find_node [] v = blank v
find_node (n ∷ ns) v = if n.id == v then n else find_node ns v

unfoldable pub node_at : Graph → ℕ → Node
node_at g v = find_node g.nodes v

-- a write through a node's pointer
unfoldable pub update_node : Graph → ℕ → (Node → Node) → Graph
update_node g v f = record g { nodes = map (λ n. if n.id == v then f n else n) g.nodes }

-- `out_edges`, by their ids
unfoldable pub out_edges : List Edge → ℕ → List ℕ
out_edges [] v = []
out_edges (e ∷ es) v = let rest = out_edges es v in if e.src == v then e.id ∷ rest else rest

-- the end of an edge that is known by its id
unfoldable pub find_dst : List Edge → ℕ → ℕ
find_dst [] i = 0
find_dst (e ∷ es) i = if e.id == i then e.dst else find_dst es i

unfoldable pub dst_of : Graph → ℕ → ℕ
dst_of g i = find_dst g.edges i

unfoldable pub find_input : List Edge → ℕ → ℕ → Option Edge
find_input [] v i = none
find_input (e ∷ es) v i = if e.dst == v && e.dst_input == pos i then some e else find_input es v i

-- the first `k` entries of `input_edges`, which fails if an input has no edge
unfoldable pub input_edges_from : Graph → ℕ → ℕ → ℕ → Status (List Edge)
input_edges_from g v i zero = ok []
input_edges_from g v i (suc k) = elim (find_input g.edges v i) [
  | none ↦ err invalid_argument
  | some e ↦ do rest ← input_edges_from g v (suc i) k; ok (e ∷ rest)
]

unfoldable pub input_edges : Graph → Node → Status (List Edge)
unfolding input_edges_from
input_edges g n = input_edges_from g n.id 0 n.num_inputs
