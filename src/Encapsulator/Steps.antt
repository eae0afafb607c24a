-- ===== src/Encapsulator/Steps.antt =====
-- Pass 2 of the analysis as steps: what a visit of an edge that succeeds has written.
use ngraph.Prelude.{
  suc, ◌≡◌, subst, true, false, not, ◌||◌, Bool, arith, inl, inr, ◌==◌, nat_eq, Bool-cases, length,
}
use ngraph.Prelude.Int.{ℤ, int_eq}
use ngraph.Prelude.Status.{Status, ok, err, >>=-eq-ok, ◌>>=◌}
use ngraph.Graph.{DataType, Node, Edge, Graph, is_op, is_control_edge, node_at}
use ngraph.ClusterManager.{ClusterManager}
use ngraph.Encapsulator.{cluster_idx}
use ngraph.Encapsulator.Flow.{
  Flow, record_retval, record_arg, add_retval, add_arg, add_node, count_flow, visit_flow,
  visit_edge, needs_retval, needs_arg, crosses, retval_def, arg_def,
}

pub data Retval (src : Node) (slot : ℤ) (dt : DataType) (f : Flow) : Flow → Type 0 where
  there : needs_retval src slot f.enc ≡ false → Retval src slot dt f f
  added :
      (m : ClusterManager)
      → needs_retval src slot f.enc ≡ true
      → Retval src slot dt f (record_retval src slot dt m f)

pub data Arg (src : Node) (slot : ℤ) (dst : Node) (dt : DataType) (f : Flow) : Flow → Type 0 where
  there : needs_arg src slot dst f.enc ≡ false → Arg src slot dst dt f f
  added :
      (m : ClusterManager)
      → needs_arg src slot dst f.enc ≡ true
      → Arg src slot dst dt f (record_arg src slot dst dt m f)

pub ok_inj {ℓ} : {A : Type ℓ} {a b : A} → ok a ≡ ok b → a ≡ b
ok_inj h = cc

pub ok-of_bind {ℓ} :
    {A B : Type ℓ} (m : Status A) (f : A → B) {b : B}
    → (m >>= λ x. ok (f x)) ≡ ok b
    → (x : A) × (f x ≡ b)
ok-of_bind (ok x) f h = (x, ok_inj h)
ok-of_bind (err c) f h = cc

add_retval-ok :
    (src : Node) (slot : ℤ) (dt : DataType) (f f' : Flow)
    → add_retval src slot dt f ≡ ok f'
    → (m : ClusterManager) × (record_retval src slot dt m f ≡ f')
unfolding add_retval
add_retval-ok src slot dt f f' h =
    let c = cluster_idx src in
    let k = length (f.enc.cluster_output_dt_map c) in
    ok-of_bind (add_node c (retval_def k src slot dt (f.retval_index_count c)) f.enc.manager)
      (λ m. record_retval src slot dt m f) h

add_arg-ok :
    (src : Node) (slot : ℤ) (dst : Node) (dt : DataType) (f f' : Flow)
    → add_arg src slot dst dt f ≡ ok f'
    → (m : ClusterManager) × (record_arg src slot dst dt m f ≡ f')
unfolding add_arg
add_arg-ok src slot dst dt f f' h =
    let c = cluster_idx dst in
    let k = length (f.enc.cluster_input_map c) in
    ok-of_bind (add_node c (arg_def k src dt (f.arg_index_count c)) f.enc.manager)
      (λ m. record_arg src slot dst dt m f) h

abbrev retval_write : Node → ℤ → DataType → Flow → Status Flow
retval_write src slot dt f = elim (needs_retval src slot f.enc) [
  | true ↦ add_retval src slot dt f
  | false ↦ ok f
]

abbrev arg_write : Node → ℤ → Node → DataType → Flow → Status Flow
arg_write src slot dst dt f = elim (needs_arg src slot dst f.enc) [
  | true ↦ add_arg src slot dst dt f
  | false ↦ ok f
]

retval_write-ok :
    (src : Node) (slot : ℤ) (dt : DataType) (f f' : Flow)
    → retval_write src slot dt f ≡ ok f'
    → Retval src slot dt f f'
retval_write-ok src slot dt f f' h = elim (Bool-cases (needs_retval src slot f.enc)) [
  | inl p ↦
      let (m, q) = add_retval-ok src slot dt f f' (ground arith) in
      subst (Retval src slot dt f) q (added m p)
  | inr p ↦ subst (Retval src slot dt f) (ok_inj (ground arith)) (there p)
]

arg_write-ok :
    (src : Node) (slot : ℤ) (dst : Node) (dt : DataType) (f f' : Flow)
    → arg_write src slot dst dt f ≡ ok f'
    → Arg src slot dst dt f f'
arg_write-ok src slot dst dt f f' h = elim (Bool-cases (needs_arg src slot dst f.enc)) [
  | inl p ↦
      let (m, q) = add_arg-ok src slot dst dt f f' (ground arith) in
      subst (Arg src slot dst dt f) q (added m p)
  | inr p ↦ subst (Arg src slot dst dt f) (ok_inj (ground arith)) (there p)
]

module _ (input_type : Node → ℤ → DataType) (logging : Bool) where
  -- an edge that crosses, and the two writes of its visit
  pub data Visit (g : Graph) (e : Edge) (f : Flow) : Flow → Type 0 where
    free :
        crosses g e ≡ false
        → Visit g e f (record f { count_tot = suc f.count_tot; count_free = suc f.count_free })
    encapsulated :
        crosses g e ≡ false
        → Visit g e f (record f {
          count_tot = suc f.count_tot;
          count_encapsulated = suc f.count_encapsulated;
        })
    flow :
        (a r : Bool) (f₁ f₂ : Flow)
        → crosses g e ≡ true
        → Retval
            (node_at g e.src)
            e.src_output
            (input_type (node_at g e.dst) e.dst_input)
            (record f { count_tot = suc f.count_tot })
            f₁
        → Arg
            (node_at g e.src)
            e.src_output
            (node_at g e.dst)
            (input_type (node_at g e.dst) e.dst_input)
            f₁
            f₂
        → Visit g e f (count_flow logging a r f₂)

  visit_flow-ok :
      (src dst : Node) (e : Edge) (f f' : Flow)
      → visit_flow input_type logging src dst e f ≡ ok f'
      → (f₁ f₂ : Flow) × (a r : Bool) × Retval src e.src_output (input_type dst e.dst_input) f f₁
        × Arg src e.src_output dst (input_type dst e.dst_input) f₁ f₂
        × (count_flow logging a r f₂ ≡ f')
  unfolding visit_flow
  visit_flow-ok src dst e f f' h =
      let dt = input_type dst e.dst_input in
      let r = needs_retval src e.src_output f.enc in
      let (f₁, p, h₁) =
        >>=-eq-ok (retval_write src e.src_output dt f)
          (λ f₁. arg_write src e.src_output dst dt f₁ >>= λ f₂.
            ok (count_flow logging (needs_arg src e.src_output dst f₁.enc) r f₂))
          h in
      let (f₂, q, h₂) =
        >>=-eq-ok (arg_write src e.src_output dst dt f₁)
          (λ f₂. ok (count_flow logging (needs_arg src e.src_output dst f₁.enc) r f₂)) h₁ in
      (
        f₁,
        f₂,
        needs_arg src e.src_output dst f₁.enc,
        r,
        retval_write-ok src e.src_output dt f f₁ p,
        arg_write-ok src e.src_output dst dt f₁ f₂ q,
        ok_inj h₂,
      )

  pub visit_edge-ok :
      (g : Graph) (e : Edge) (f f' : Flow)
      → visit_edge input_type logging g e f ≡ ok f'
      → Visit g e f f'
  unfolding visit_edge crosses
  visit_edge-ok g e f f' h =
      elim (Bool-cases (is_control_edge e || (not (is_op e.src) || not (is_op e.dst)))) [
        | inl p ↦ subst (Visit g e f) (ok_inj (ground arith)) (free (ground arith))
        | inr p ↦
            elim (Bool-cases (cluster_idx (node_at g e.dst) == cluster_idx (node_at g e.src))) [
              | inl q ↦ subst (Visit g e f) (ok_inj (ground arith)) (encapsulated (ground arith))
              | inr q ↦
                  let (f₁, f₂, a, r, s, t, u) =
                    visit_flow-ok (node_at g e.src) (node_at g e.dst) e
                      (record f { count_tot = suc f.count_tot }) f' (ground arith) in
                  subst (Visit g e f) u (flow a r f₁ f₂ (ground arith) s t)
            ]
      ]
