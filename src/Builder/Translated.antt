-- ===== src/Builder/Translated.antt =====
-- TranslateGraph as a whole: its refusals, and the results of the function that it builds.
use ngraph.Prelude.{
  ℕ, String, ◌≡◌, sym, ap, ◌∙◌, subst, true, false, Bool, Option, some, List, [], ◌∷◌, arith, ◌==◌,
  nat_eq, string_eq, if◌then◌else◌, get_elem?, length, inl, inr, Bool-cases, In, ap₂, ◌&&◌, ◌||◌,
  and-true,
}
use ngraph.Prelude.Int.{pos}
use ngraph.Prelude.Status.{Status, ok, err, unimplemented, >>=-eq-ok, ◌>>=◌}
use ngraph.Graph.{is_arg, is_retval, Node, Graph, is_op, get_int}
use ngraph.Builder.Library.{Library}
use ngraph.Builder.Inputs.{OpMap, get_input_node}
use ngraph.Builder.Elementwise.{Handler}
use ngraph.Builder.Translate.{
  Split, Function, add_kind, split_nodes, add_results, add_parameters, translate_ops,
  translate_graph, nulls,
}
use ngraph.Builder.Results.{add_results-result}
use ngraph.Encapsulator.Steps.{ok_inj}

-- no node is an argument and a result
not_arg : (y : Node) → is_retval y ≡ true → is_arg y ≡ false
not_arg y h = elim (Bool-cases (y.type_string == "_Retval")) [
  | inl own ↦ ap by_name ((string_eq.beq_iff y.type_string "_Retval").0 own)
  | inr other ↦
      let device : (y.type_string == "_DeviceRetval") ≡ true = ground (arith, h, other) in
      ap by_name ((string_eq.beq_iff y.type_string "_DeviceRetval").0 device)
]
  where
    by_name : String → Bool
    by_name z = z == "_Arg" || z == "_DeviceArg"

add_kind-ret_vals :
    (y : Node) (t : Split)
    → (add_kind y t).tf_ret_vals ≡ (if is_retval y then y ∷ t.tf_ret_vals else t.tf_ret_vals)
unfolding add_kind
add_kind-ret_vals y t = elim (Bool-cases (is_retval y)) [
  | inl own ↦ ground (arith, own, not_arg y own)
  | inr other ↦ ground (arith, other)
]

In-if : (b : Bool) (n y : Node) (ns : List Node) → In n ns → In n (if b then y ∷ ns else ns)
In-if true n y ns i = inr i
In-if false n y ns i = i

module _ (is_control_flow : Node → Bool) where
  split_nodes-refused :
      (ns : List Node) (n : Node)
      → In n ns
      → is_op n.id ≡ true
      → is_control_flow n ≡ true
      → split_nodes is_control_flow ns ≡ err unimplemented
  unfolding split_nodes
  split_nodes-refused [] n i op flow = absurd (i tt)
  split_nodes-refused (y ∷ ns) n (inl e) op flow =
      ground (arith, ap (λ z. is_op z.id) e, ap is_control_flow e)
  split_nodes-refused (y ∷ ns) n (inr i) op flow =
      ground (arith, split_nodes-refused ns n i op flow)

  -- a split that succeeds, one node at a time
  split_nodes-cases :
      (y : Node) (ns : List Node) (s : Split)
      → split_nodes is_control_flow (y ∷ ns) ≡ ok s
      → (t : Split) × (split_nodes is_control_flow ns ≡ ok t)
        × (s ≡ (if is_op y.id then add_kind y t else t))
  unfolding split_nodes
  split_nodes-cases y ns s h = elim (Bool-cases (is_op y.id)) [
    | inr skip ↦ (s, ground arith, ap (λ z. if z then add_kind y s else s) (sym skip))
    | inl op ↦ elim (Bool-cases (is_control_flow y)) [
      | inl bad ↦ absurd (ground arith)
      | inr good ↦
          let (t, p, k) =
            >>=-eq-ok (split_nodes is_control_flow ns) (λ t. ok (add_kind y t)) {b = s}
              (ground arith) in
          (t, p, sym (ok_inj k) ∙ ap (λ z. if z then add_kind y t else t) (sym op))
    ]
  ]

  -- the nodes among the results, after a node that is kept or skipped
  split_nodes-ret_vals :
      (y : Node) (ns : List Node) (s : Split)
      → split_nodes is_control_flow (y ∷ ns) ≡ ok s
      → (t : Split) × (split_nodes is_control_flow ns ≡ ok t)
        × (s.tf_ret_vals ≡ (if is_op y.id && is_retval y then y ∷ t.tf_ret_vals else t.tf_ret_vals))
  split_nodes-ret_vals y ns s h =
      let (t, p, e) = split_nodes-cases y ns s h in
      let kinds = add_kind-ret_vals y t in
      (
        t,
        p,
        ap (λ z. z.tf_ret_vals) e ∙ elim (Bool-cases (is_op y.id)) [
          | inl op ↦ ground (arith, op, kinds)
          | inr skip ↦ ground (arith, skip)
        ],
      )

  pub split_nodes-In :
      (ns : List Node) (s : Split) (n : Node)
      → split_nodes is_control_flow ns ≡ ok s
      → In n ns
      → is_op n.id ≡ true
      → (is_retval n) ≡ true
      → In n s.tf_ret_vals
  split_nodes-In [] s n h i op kind = absurd (i tt)
  split_nodes-In (y ∷ ns) s n h (inl same) op kind =
      let (t, p, e) = split_nodes-ret_vals y ns s h in
      let own : (is_op y.id && is_retval y) ≡ true =
        ap (λ z. is_op z.id && is_retval z) (sym same) ∙ ap₂ (λ a b. a && b) op kind in
      subst (In n) (sym (e ∙ ap (λ z. if z then y ∷ t.tf_ret_vals else t.tf_ret_vals) own))
        (inl same)
  split_nodes-In (y ∷ ns) s n h (inr i) op kind =
      let (t, p, e) = split_nodes-ret_vals y ns s h in
      subst (In n) (sym e)
        (In-if (is_op y.id && is_retval y) n y t.tf_ret_vals (split_nodes-In ns t n p i op kind))

  -- only nodes of the list are among the results
  pub split_nodes-old :
      (ns : List Node) (s : Split) (n : Node)
      → split_nodes is_control_flow ns ≡ ok s
      → In n s.tf_ret_vals
      → In n ns × ((is_retval n) ≡ true)
  unfolding split_nodes
  split_nodes-old [] s n h i = absurd (subst (λ z. In n z.tf_ret_vals) (sym (ok_inj h)) i tt)
  split_nodes-old (y ∷ ns) s n h i =
      let (t, p, e) = split_nodes-ret_vals y ns s h in
      elim (Bool-cases (is_op y.id && is_retval y)) [
        | inl own ↦
            elim (subst (In n) (e ∙ ap (λ z. if z then y ∷ t.tf_ret_vals else t.tf_ret_vals) own)
              i) [
                | inl same ↦ (inl same, ap (λ z. is_retval z) same ∙ (and-true own).1)
                | inr later ↦ let (j, k) = split_nodes-old ns t n p later in (inr j, k)
              ]
        | inr other ↦
            let (j, k) = split_nodes-old ns t n p (
              subst (In n) (e ∙ ap (λ z. if z then y ∷ t.tf_ret_vals else t.tf_ret_vals) other)
                i) in
            (inr j, k)
      ]

module _ (lib : Library) (is_control_flow : Node → Bool) (order : Graph → List Node)
    (others : String → Handler lib) (inputs : List (List ℕ)) (statics : List (Option lib.Tensor))
    (g : Graph) where
  -- TranslateGraph refuses a graph with a control flow op, before it builds anything.
  pub translate_graph-refused :
      (n : Node)
      → In n (order g)
      → is_op n.id ≡ true
      → is_control_flow n ≡ true
      → translate_graph lib is_control_flow order others inputs statics g ≡ err unimplemented
  unfolding translate_graph
  translate_graph-refused n i op flow =
      ground (arith, split_nodes-refused is_control_flow (order g) n i op flow)

  -- the op map after the loop over the ops
  pub record IsTranslated (f : Function lib.Value) (m : OpMap lib.Value) : Type 0 where
    pub split : Split
    pub parameters_map : OpMap lib.Value
    pub splits : split_nodes is_control_flow (order g) ≡ ok split
    pub adds_parameters :
        add_parameters lib inputs split.tf_params [] (nulls (length split.tf_params))
        ≡ ok (parameters_map, f.parameters)
    pub translates : translate_ops lib others g statics split.tf_ops parameters_map ≡ ok m
    pub adds_results :
        add_results lib g m split.tf_ret_vals (nulls (length split.tf_ret_vals)) ≡ ok f.results

  translate_graph-IsTranslated :
      (f : Function lib.Value)
      → translate_graph lib is_control_flow order others inputs statics g ≡ ok f
      → (m : OpMap lib.Value) × IsTranslated f m
  unfolding translate_graph
  translate_graph-IsTranslated f h =
      let F : Type 0 = Function lib.Value in
      let V : Type 0 = List (Option lib.Value) in
      let last : V → V → Status F = λ ps rs. ok (record { results = rs; parameters = ps }) in
      let third : Split → V → OpMap lib.Value → Status F =
        λ s ps m. add_results lib g m s.tf_ret_vals (nulls (length s.tf_ret_vals)) >>= last ps in
      let second : Split → (OpMap lib.Value × V) → Status F =
        λ s p. translate_ops lib others g statics s.tf_ops p.0 >>= third s p.1 in
      let first : Split → Status F =
        λ s. add_parameters lib inputs s.tf_params [] (nulls (length s.tf_params)) >>= second s in
      let (s, a, h₁) = >>=-eq-ok (split_nodes is_control_flow (order g)) first h in
      let ((pm, ps), b, h₂) =
        >>=-eq-ok (add_parameters lib inputs s.tf_params [] (nulls (length s.tf_params))) (second s)
          h₁ in
      let (m, c, h₃) = >>=-eq-ok (translate_ops lib others g statics s.tf_ops pm) (third s ps) h₂ in
      let (rs, d, h₄) =
        >>=-eq-ok (add_results lib g m s.tf_ret_vals (nulls (length s.tf_ret_vals))) (last ps) h₃ in
      let made : ◌≡◌ {A = F} (record { results = rs; parameters = ps }) f = ok_inj h₄ in
      (
        m,
        subst (λ z. IsTranslated z m) made
            (record {
              split = s;
              parameters_map = pm;
              splits = a;
              adds_parameters = b;
              translates = c;
              adds_results = d;
            }),
      )

  -- When TranslateGraph succeeds, the function's result at the index of a result node is the
  -- `Result` of the value that the node's input has in the op map, provided that no other result
  -- node has that index.
  pub translate_graph-result :
      (f : Function lib.Value) (n : Node) (i : ℕ)
      → translate_graph lib is_control_flow order others inputs statics g ≡ ok f
      → In n (order g)
      → is_op n.id ≡ true
      → (is_retval n) ≡ true
      → get_int n "index" ≡ some (pos i)
      → ((y : Node)
          → In y (order g)
          → (is_retval y) ≡ true
          → get_int y "index" ≡ some (pos i)
          → y ≡ n)
      → (m : OpMap lib.Value) × IsTranslated f m
        × (x v : lib.Value) × (get_input_node g m n 0 ≡ ok x)
        × (lib.construct "Result" (x ∷ []) [] ≡ ok v)
        × (get_elem? f.results i ≡ some (some v))
  translate_graph-result f n i h l op kind index unique =
      let (m, t) = translate_graph-IsTranslated f h in
      let among = split_nodes-In is_control_flow (order g) t.split n t.splits l op kind in
      let (x, v, read, built, found) =
        add_results-result lib g m t.split.tf_ret_vals (nulls (length t.split.tf_ret_vals))
          f.results n i among index
          (λ y j k.
            let (old, of_kind) = split_nodes-old is_control_flow (order g) t.split y t.splits j in
            unique y old of_kind k)
          t.adds_results in
      (m, t, x, v, read, built, found)
