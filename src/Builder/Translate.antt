-- ===== src/Builder/Translate.antt =====
-- Builder::TranslateGraph of ngraph_bridge/ngraph_builder.cc up to the passes over the result.
use ngraph.Prelude.{
  ℕ, zero, suc, String, Bool, true, false, not, Option, none, some, List, [], ◌∷◌, ◌==◌, nat_eq,
  string_eq, if◌then◌else◌, get_elem?, set, length,
}
use ngraph.Prelude.Int.{ℤ, pos, negsuc}
use ngraph.Prelude.Status.{Status, ok, err, unimplemented, invalid_argument, fatal, ◌>>=◌}
use ngraph.Graph.{Node, Graph, is_arg, is_retval, is_op, get_int, get_dtype, get_text}
use ngraph.Builder.Library.{Library, element, shape, word, to_element_type}
use ngraph.Builder.Inputs.{OpMap, save_ng_op, get_input_node}
use ngraph.Builder.Elementwise.{Handler}
use ngraph.Builder.Dispatch.{translate_op}

pub record Split : Type 0 where
  pub tf_params : List Node
  pub tf_ret_vals : List Node
  pub tf_ops : List Node

-- the test of the kind of one node
unfoldable pub add_kind : Node → Split → Split
add_kind n s =
    if is_arg n
    then record s { tf_params = n ∷ s.tf_params }
    else if is_retval n
    then record s { tf_ret_vals = n ∷ s.tf_ret_vals }
    else record s { tf_ops = n ∷ s.tf_ops }

-- `index` of a vector of pointers that starts with nulls; a write outside of it is undefined.
unfoldable pub put_at {ℓ} : {A : Type ℓ} → ℤ → A → List (Option A) → Status (List (Option A))
put_at (negsuc i) a xs = err fatal
put_at (pos i) a xs = elim (get_elem? xs i) [ none ↦ err fatal | some _ ↦ ok (set xs i (some a)) ]

abbrev pub nulls {ℓ} : {A : Type ℓ} → ℕ → List (Option A)
nulls zero = []
nulls (suc k) = none ∷ nulls k

abbrev pub or_blank : Option String → String
or_blank none = ""
or_blank (some s) = s

-- `is_control_flow`: TensorFlow's test of a node
module _ (is_control_flow : Node → Bool) where
  -- the loop that splits the ops
  unfoldable pub split_nodes : List Node → Status Split
  unfolding is_op add_kind
  split_nodes [] = ok (record { tf_params = []; tf_ret_vals = []; tf_ops = [] })
  split_nodes (n ∷ ns) = elim (not (is_op n.id)) [
    | true ↦ split_nodes ns
    | false ↦ elim (is_control_flow n) [
      | true ↦ err unimplemented
      | false ↦ do s ← split_nodes ns; ok (add_kind n s)
    ]
  ]

-- the function that is built: its results and parameters by their indices
pub record Function (V : Type 0) : Type 0 where
  pub results : List (Option V)
  pub parameters : List (Option V)

-- an attribute that must be there
abbrev pub or_invalid {ℓ} : {A : Type ℓ} → Option A → Status A
or_invalid none = err invalid_argument
or_invalid (some a) = ok a

-- `inputs[index]` and its conversion; sizes that are negative are refused there
abbrev pub shape_at : List (List ℕ) → ℤ → Status (List ℕ)
shape_at inputs (negsuc i) = err fatal
shape_at inputs (pos i) = elim (get_elem? inputs i) [ none ↦ err fatal | some s ↦ ok s ]

module _ (lib : Library) where
  -- the loop over the parameters
  unfoldable pub add_parameters :
      List (List ℕ)
      → List Node
      → OpMap lib.Value
      → List (Option lib.Value)
      → Status (OpMap lib.Value × List (Option lib.Value))
  unfolding get_dtype get_int get_text to_element_type save_ng_op put_at
  add_parameters inputs [] m ps = ok (m, ps)
  add_parameters inputs (parm ∷ parms) m ps = do
    dtype ← or_invalid (get_dtype parm "T")
    index ← or_invalid (get_int parm "index")
    et ← to_element_type dtype
    s ← shape_at inputs index
    v ←
        lib.construct "Parameter" []
          (word (or_blank (get_text parm "_prov_tag")) ∷ element et ∷ shape s ∷ [])
    ps' ← put_at index v ps
    add_parameters inputs parms (save_ng_op m parm.name v) ps'

  -- the loop over the ops
  unfoldable pub translate_ops :
      (String → Handler lib)
      → Graph
      → List (Option lib.Tensor)
      → List Node
      → OpMap lib.Value
      → Status (OpMap lib.Value)
  unfolding translate_op
  translate_ops others g statics [] m = ok m
  translate_ops others g statics (op ∷ ops) m =
      translate_op lib others g statics op m >>= translate_ops others g statics ops

  -- the result of one `_Retval`
  unfoldable pub result_of : Graph → OpMap lib.Value → Node → Status (ℤ × lib.Value)
  unfolding get_int get_input_node
  result_of g m n = elim (n.num_inputs == 1) [
    | false ↦ err invalid_argument
    | true ↦ do
      index ← or_invalid (get_int n "index")
      x ← get_input_node g m n 0
      v ← lib.construct "Result" (x ∷ []) []
      ok (index, v)
  ]

  -- the loop over the results
  unfoldable pub add_results :
      Graph
      → OpMap lib.Value
      → List Node
      → List (Option lib.Value)
      → Status (List (Option lib.Value))
  unfolding result_of put_at
  add_results g m [] rs = ok rs
  add_results g m (n ∷ ns) rs = result_of g m n >>= λ r. put_at r.0 r.1 rs >>= add_results g m ns

  -- `order`: GetReversePostOrder by name
  unfoldable pub translate_graph :
      (Node → Bool)
      → (Graph → List Node)
      → (String → Handler lib)
      → List (List ℕ)
      → List (Option lib.Tensor)
      → Graph
      → Status (Function lib.Value)
  unfolding split_nodes add_parameters translate_ops add_results
  translate_graph is_control_flow order others inputs statics g = do
    s ← split_nodes is_control_flow (order g)
    (m, parameters) ← add_parameters inputs s.tf_params [] (nulls (length s.tf_params))
    m' ← translate_ops others g statics s.tf_ops m
    results ← add_results g m' s.tf_ret_vals (nulls (length s.tf_ret_vals))
    ok (record { results = results; parameters = parameters })
