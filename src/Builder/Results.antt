-- ===== src/Builder/Results.antt =====
-- The results of TranslateGraph.
use ngraph.Prelude.{
  ℕ, ◌≡◌, refl, sym, ap, ◌∙◌, true, Option, some, List, [], ◌∷◌, arith, ◌==◌, nat_eq, string_eq,
  if◌then◌else◌, get_elem?, set, inl, inr, Bool-cases, Option-cases, In,
}
use ngraph.Prelude.Int.{ℤ, pos, negsuc, int_eq}
use ngraph.Prelude.Positions.{get_elem?-set, get_elem?-bound}
use ngraph.Prelude.Status.{Status, ok, >>=-eq-ok, ◌>>=◌}
use ngraph.Graph.{Node, Graph, get_int}
use ngraph.Builder.Library.{Library}
use ngraph.Builder.Inputs.{OpMap, get_input_node}
use ngraph.Builder.Translate.{put_at, or_invalid, result_of, add_results}
use ngraph.Encapsulator.Steps.{ok_inj}

-- what a write at an index leaves
put_at-get :
    {A : Type 0} (k : ℤ) (a : A) (xs ys : List (Option A)) (j : ℕ)
    → put_at k a xs ≡ ok ys
    → get_elem? ys j ≡ (if pos j == k then some (some a) else get_elem? xs j)
unfolding put_at
put_at-get (negsuc i) a xs ys j h = absurd (ground arith)
put_at-get (pos i) a xs ys j h = elim (Option-cases (get_elem? xs i)) [
  | inl out ↦ absurd (ground arith)
  | inr (b, found) ↦
      let same : set xs i (some a) ≡ ys = ok_inj (ground arith) in
      ap (λ z. get_elem? z j) (sym same)
      ∙ get_elem?-set xs i j (some a) (get_elem?-bound xs i b found)
]

module _ (lib : Library) (g : Graph) (m : OpMap lib.Value) where
  -- the result of a `_Retval`: its index, and the `Result` of its input
  result_of-parts :
      (n : Node) (k : ℤ) (v : lib.Value)
      → result_of lib g m n ≡ ok (k, v)
      → (get_int n "index" ≡ some k)
        × (x : lib.Value) × (get_input_node g m n 0 ≡ ok x)
        × (lib.construct "Result" (x ∷ []) [] ≡ ok v)
  unfolding result_of
  result_of-parts n k v h = elim (Bool-cases (n.num_inputs == 1)) [
    | inr bad ↦ absurd (ground arith)
    | inl one ↦
        let last : ℤ → lib.Value → Status (ℤ × lib.Value) =
          λ i x. lib.construct "Result" (x ∷ []) [] >>= λ w. ok (i, w) in
        let (i, p, h₁) =
          >>=-eq-ok (or_invalid (get_int n "index")) (λ i. get_input_node g m n 0 >>= last i)
            {b = (k, v)} (ground arith) in
        let (x, q, h₂) = >>=-eq-ok (get_input_node g m n 0) (last i) h₁ in
        let (w, r, h₃) = >>=-eq-ok (lib.construct "Result" (x ∷ []) []) (λ w. ok (i, w)) h₂ in
        let same : ◌≡◌ {A = ℤ × lib.Value} (i, w) (k, v) = ok_inj h₃ in
        let index : get_int n "index" ≡ some i = ground (arith, p) in
        (index ∙ ap (λ z. some z.0) same, x, q, r ∙ ap (λ z. ok z.1) same)
  ]

  -- a slot that holds the result of `n` keeps it, if no other node writes there
  add_results-holds :
      (ns : List Node) (rs rs' : List (Option lib.Value)) (n : Node) (i : ℕ) (v : lib.Value)
      → result_of lib g m n ≡ ok (pos i, v)
      → ((y : Node) → In y ns → get_int y "index" ≡ some (pos i) → y ≡ n)
      → add_results lib g m ns rs ≡ ok rs'
      → get_elem? rs i ≡ some (some v)
      → get_elem? rs' i ≡ some (some v)
  unfolding add_results
  add_results-holds [] rs rs' n i v own unique h k = ap (λ z. get_elem? z i) (sym (ok_inj h)) ∙ k
  add_results-holds (y ∷ ns) rs rs' n i v own unique h k =
      let ((j, w), p, h₁) =
        >>=-eq-ok (result_of lib g m y) (λ r. put_at r.0 r.1 rs >>= add_results lib g m ns) h in
      let (rs₁, q, h₂) = >>=-eq-ok (put_at j w rs) (add_results lib g m ns) h₁ in
      let after = put_at-get j w rs rs₁ i q in
      let kept : get_elem? rs₁ i ≡ some (some v) = elim (Bool-cases (pos i == j)) [
        | inr other ↦ ground (arith, after, k, other)
        | inl same ↦
            let index = (result_of-parts y j w p).0 in
            let e : j ≡ pos i = sym ((int_eq.beq_iff (pos i) j).0 same) in
            let yn : y ≡ n = unique y (inl refl) (index ∙ ap (λ z. some z) e) in
            let both : ◌≡◌ {A = ℤ × lib.Value} (j, w) (pos i, v) =
              ok_inj (sym p ∙ ap (result_of lib g m) yn ∙ own) in
            let w_is_v : w ≡ v = ap (λ z. z.1) both in
            after
            ∙ ap (λ z. if z then some (some w) else get_elem? rs i) same
            ∙ ap (λ z. some (some z)) w_is_v
      ] in
      add_results-holds ns rs₁ rs' n i v own (λ z l. unique z (inr l)) h₂ kept

  pub add_results-result :
      (ns : List Node) (rs rs' : List (Option lib.Value)) (n : Node) (i : ℕ)
      → In n ns
      → get_int n "index" ≡ some (pos i)
      → ((y : Node) → In y ns → get_int y "index" ≡ some (pos i) → y ≡ n)
      → add_results lib g m ns rs ≡ ok rs'
      → (x v : lib.Value) × (get_input_node g m n 0 ≡ ok x)
        × (lib.construct "Result" (x ∷ []) [] ≡ ok v)
        × (get_elem? rs' i ≡ some (some v))
  unfolding add_results
  add_results-result [] rs rs' n i l index unique h = absurd (l tt)
  add_results-result (y ∷ ns) rs rs' n i l index unique h =
      let ((j, w), p, h₁) =
        >>=-eq-ok (result_of lib g m y) (λ r. put_at r.0 r.1 rs >>= add_results lib g m ns) h in
      let (rs₁, q, h₂) = >>=-eq-ok (put_at j w rs) (add_results lib g m ns) h₁ in
      elim l [
        | inr later ↦ add_results-result ns rs₁ rs' n i later index (λ z k. unique z (inr k)) h₂
        | inl e ↦
            let (found, x, a, b) = result_of-parts y j w p in
            let here : j ≡ pos i =
              some_inj (sym found ∙ ap (λ z. get_int z "index") (sym e) ∙ index) in
            let same : (pos i == j) ≡ true = (int_eq.beq_iff (pos i) j).1 (sym here) in
            let own : result_of lib g m n ≡ ok (pos i, w) =
              ap (result_of lib g m) e ∙ p ∙ ap (λ z. ok (z, w)) here in
            let holds : get_elem? rs₁ i ≡ some (some w) =
              put_at-get j w rs rs₁ i q
              ∙ ap (λ z. if z then some (some w) else get_elem? rs i) same in
            (
              x,
              w,
              ap (λ z. get_input_node g m z 0) e ∙ a,
              b,
              add_results-holds ns rs₁ rs' n i w own (λ z k. unique z (inr k)) h₂ holds,
            )
      ]
    where
      some_inj : {a b : ℤ} → some a ≡ some b → a ≡ b
      some_inj e = cc
