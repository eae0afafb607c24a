-- ===== src/Builder/Inputs.antt =====
-- The op map and the readers of inputs, ngraph_bridge/ngraph_builder.cc.
use ngraph.Prelude.{
  ℕ, suc, zero, String, not, ◌||◌, Option, none, some, List, [], ◌∷◌, ◌++◌, ◌==◌, nat_eq, string_eq,
  if◌then◌else◌, ltb, lookup, assign, get_elem?,
}
use ngraph.Prelude.Int.{ℤ, pos, negsuc, ltb_ℤ}
use ngraph.Prelude.Status.{Status, ok, err, invalid_argument, not_found, ◌>>=◌, ◌>>◌}
use ngraph.Graph.{Node, Graph, find_input, input_edges, node_at}

-- GetNodeAttr: an attribute that is missing is not found, one of another type is an invalid argument.
abbrev pub require {ℓ} : {A : Type ℓ} → Node → String → (Node → String → Option A) → Status A
require n attr get = elim (get n attr) [
  | some a ↦ ok a
  | none ↦ elim (lookup attr n.attrs) [ none ↦ err not_found | some _ ↦ err invalid_argument ]
]

unfoldable pub validate_input_count : Node → ℕ → Status {0} Unit
validate_input_count op count = if not (op.num_inputs == count) then err invalid_argument else ok tt

unfoldable pub validate_input_count_min : Node → ℕ → Status {0} Unit
validate_input_count_min op count = if ltb op.num_inputs count then err invalid_argument else ok tt

-- -rank, as an integer
abbrev pub neg : ℕ → ℤ
neg zero = pos 0
neg (suc n) = negsuc n

unfoldable pub check_axis_dim_in_range : List ℤ → ℕ → Status {0} Unit
check_axis_dim_in_range [] rank = ok tt
check_axis_dim_in_range (i ∷ axes) rank =
    let rest = check_axis_dim_in_range axes rank in
    if ltb_ℤ i (neg rank) || not (ltb_ℤ i (pos rank)) then err invalid_argument else rest

-- `Node::input_node`
unfoldable pub input_node : Graph → Node → ℕ → Status Node
unfolding find_input node_at
input_node g op i =
    if ltb i op.num_inputs
    then elim (find_input g.edges op.id i) [
      | none ↦ err invalid_argument
      | some e ↦ ok (node_at g e.src)
    ]
    else err invalid_argument

-- `Builder::OpMap`
abbrev pub OpMap : Type 0 → Type 0
OpMap V = List (String × List V)

module _ {V : Type 0} where
  abbrev pub entry : OpMap V → String → List V
  entry m name = elim (lookup name m) [ none ↦ [] | some vs ↦ vs ]

  unfoldable pub save_ng_op : OpMap V → String → V → OpMap V
  unfolding lookup assign
  save_ng_op m op_name v = assign op_name (entry m op_name ++ v ∷ []) m

  -- `ng_op.at(src_output_idx)`, with the slot as a `size_t`
  abbrev pub value_at : List V → ℤ → Status V
  value_at vs (negsuc i) = err not_found
  value_at vs (pos i) = elim (get_elem? vs i) [ none ↦ err not_found | some v ↦ ok v ]

  unfoldable pub get_input_node : Graph → OpMap V → Node → ℕ → Status V
  unfolding input_edges input_node lookup
  get_input_node g m op input_idx = input_edges g op >>= λ edges. elim (get_elem? edges input_idx) [
    | none ↦ err not_found
    | some e ↦ input_node g op input_idx >>= λ src. elim (lookup src.name m) [
      | none ↦ err not_found
      | some vs ↦ value_at vs e.src_output
    ]
  ]

  -- the loops that read `k` inputs from one on
  unfoldable pub get_inputs_from : Graph → OpMap V → Node → ℕ → ℕ → Status (List V)
  unfolding get_input_node
  get_inputs_from g m op index zero = ok []
  get_inputs_from g m op index (suc k) = do
    v ← get_input_node g m op index
    rest ← get_inputs_from g m op (suc index) k
    ok (v ∷ rest)

  -- GetInputNodes for one, two and three results
  unfoldable pub one_input : Graph → OpMap V → Node → Status V
  unfolding validate_input_count get_input_node
  one_input g m op = validate_input_count op 1 >> get_input_node g m op 0

  unfoldable pub two_inputs : Graph → OpMap V → Node → Status (V × V)
  unfolding validate_input_count get_input_node
  two_inputs g m op = do
    validate_input_count op 2
    a ← get_input_node g m op 0
    b ← get_input_node g m op 1
    ok (a, b)

  unfoldable pub three_inputs : Graph → OpMap V → Node → Status (V × V × V)
  unfolding validate_input_count get_input_node
  three_inputs g m op = do
    validate_input_count op 3
    a ← get_input_node g m op 0
    b ← get_input_node g m op 1
    c ← get_input_node g m op 2
    ok (a, b, c)

  unfoldable pub four_inputs : Graph → OpMap V → Node → Status (V × V × V × V)
  unfolding validate_input_count get_input_node
  four_inputs g m op = do
    validate_input_count op 4
    a ← get_input_node g m op 0
    b ← get_input_node g m op 1
    c ← get_input_node g m op 2
    d ← get_input_node g m op 3
    ok (a, b, c, d)
