-- ===== src/Encapsulator/Placed.antt =====
-- The analysis as a whole: after it, every edge between clusters has its places in the maps.
use ngraph.Prelude.{
  ℕ, suc, ◌≡◌, refl, sym, ap, ◌∙◌, subst, true, Bool, some, List, [], ◌∷◌, nat_eq, pair_eq, lookup,
  inl, inr, In,
}
use ngraph.Prelude.Int.{ℤ, int_eq}
use ngraph.Prelude.Status.{ok, >>=-eq-ok}
use ngraph.Graph.{DataType, Node, Edge, Graph, node_at}
use ngraph.Encapsulator.{Encapsulator, cluster_idx, is_clustered}
use ngraph.Encapsulator.Flow.{Flow, crosses, visit_edge, visit_edges}
use ngraph.Encapsulator.Steps.{Visit, visit_edge-ok, ok_inj}
use ngraph.Encapsulator.Remapped.{IsGood, Grows}
use ngraph.Encapsulator.Places.{
  Step, Step-trans, Grows-refl, Retval-Step, Arg-Step, count_flow-Step, Retval-output, Arg-input,
  node_at-id,
}

-- the maps hold the places of an edge that crosses
pub record IsFiled (g : Graph) (x : Edge) (e : Encapsulator) : Type 0 where
  pub output :
      is_clustered (node_at g x.src) ≡ true
      → (c : ℤ × ℕ) × (lookup (x.src, x.src_output) e.output_remap_map ≡ some c)
  pub input :
      is_clustered (node_at g x.dst) ≡ true
      → (k : ℕ) × (lookup (cluster_idx (node_at g x.dst), (x.src, x.src_output)) e.input_remap_map
          ≡ some k)

IsFiled-Grows :
    {g : Graph} {x : Edge} {f f' : Flow} → Grows f f' → IsFiled g x f.enc → IsFiled g x f'.enc
IsFiled-Grows w h = record {
  output = λ p. let (c, q) = h.output p in (c, w.outputs _ c q);
  input = λ p. let (k, q) = h.input p in (k, w.inputs _ k q);
}

module _ (input_type : Node → ℤ → DataType) (logging : Bool) (g : Graph) where
  Visit-Step :
      (x : Edge) (f f' : Flow)
      → Visit input_type logging g x f f'
      → Step g f f' × (crosses g x ≡ true → IsFiled g x f'.enc)
  Visit-Step x f f' (Visit.free p) = (
    record {
      keeps = λ r. r;
      grows = record {
        devices = refl;
        graph = refl;
        rewrite_done = refl;
        outputs = λ o x h. h;
        inputs = λ o k h. h;
      };
    },
    λ h. cc,
  )
  Visit-Step x f f' (Visit.encapsulated p) = (
    record {
      keeps = λ r. r;
      grows = record {
        devices = refl;
        graph = refl;
        rewrite_done = refl;
        outputs = λ o x h. h;
        inputs = λ o k h. h;
      };
    },
    λ h. cc,
  )
  Visit-Step x f f' (Visit.flow a r f₁ f₂ c s t) =
      let src = node_at g x.src in
      let dst = node_at g x.dst in
      let dt = input_type dst x.dst_input in
      let f₀ : Flow = record f { count_tot = suc f.count_tot } in
      let first : Step g f f₀ = record {
        keeps = λ r. r;
        grows = record {
          devices = refl;
          graph = refl;
          rewrite_done = refl;
          outputs = λ o x h. h;
          inputs = λ o k h. h;
        };
      } in
      let second = Retval-Step g x.src x.src_output dst dt f₀ f₁ s in
      let third = Arg-Step g src x.src_output dst dt f₁ f₂ t in
      let last = count_flow-Step g logging a r f₂ in
      let own : src.id ≡ x.src = node_at-id g x.src in
      (
        Step-trans first (Step-trans second (Step-trans third last)),
        λ h. IsFiled-Grows last.grows (record {
          output = λ p.
              let (k, q) = Retval-output src x.src_output dt f₀ f₁ s p in
              (
                k,
                third.grows.outputs (x.src, x.src_output) k
                    (subst (λ v. lookup (v, x.src_output) f₁.enc.output_remap_map ≡ some k) own q),
              );
          input = λ p.
              let (k, q) = Arg-input src x.src_output dst dt f₁ f₂ t p in
              (
                k,
                subst
                    (λ v.
                      lookup (cluster_idx dst, (v, x.src_output)) f₂.enc.input_remap_map ≡ some k)
                    own q,
              );
        }),
      )

  pub visit_edges-Step :
      (es : List Edge) (f f' : Flow)
      → visit_edges input_type logging g es f ≡ ok f'
      → Step g f f' × ((x : Edge) → In x es → crosses g x ≡ true → IsFiled g x f'.enc)
  unfolding visit_edges
  visit_edges-Step [] f f' h = (
    subst (Step g f) (ok_inj h) (record { keeps = λ r. r; grows = Grows-refl f }),
    λ x i. absurd (i tt),
  )
  visit_edges-Step (y ∷ es) f f' h =
      let (f₁, p, rest) =
        >>=-eq-ok (visit_edge input_type logging g y f) (visit_edges input_type logging g es) h in
      let one = Visit-Step y f f₁ (visit_edge-ok input_type logging g y f f₁ p) in
      let more = visit_edges-Step es f₁ f' rest in
      (
        Step-trans one.0 more.0,
        λ x i c. elim i [
          | inl e ↦
              IsFiled-Grows more.0.grows
                (subst (λ z. IsFiled g z f₁.enc) (sym e) (one.1 (ap (crosses g) (sym e) ∙ c)))
          | inr j ↦ more.1 x j c
        ],
      )

  -- Pass 2 keeps the maps in order over any list of edges, from any state in which they are: the
  -- `index` counters of a cluster are the numbers of its outputs and inputs, an output's recorded
  -- index is in range, belongs to the cluster of its node and to no other output, and an input stands
  -- in the cluster's list at its recorded index.
  pub visit_edges-IsGood :
      (es : List Edge) (f f' : Flow)
      → IsGood g f
      → visit_edges input_type logging g es f ≡ ok f'
      → IsGood g f'
  visit_edges-IsGood es f f' r h = (visit_edges-Step es f f' h).0.keeps r
