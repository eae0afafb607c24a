-- ===== src/Assign/Extends.antt =====
-- The edges that AssignClusters gives to the cycle detector before it contracts.
use ngraph.Prelude.{
  ℕ, ◌≡◌, refl, sym, ◌∙◌, true, List, [], ◌∷◌, arith, nat_eq, string_eq, nat_beq_iff, inl, inr, In,
  Bool-cases, subst,
}
use ngraph.Prelude.Int.{int_eq}
use ngraph.Prelude.Status.{ok, >>=-eq-ok}
use ngraph.Graph.{Edge, Graph}
use ngraph.GraphCycles.{GraphCycles, IsLawful}
use ngraph.Assign.Cluster.{ClusterMap, index_of}
use ngraph.Assign.Setup.{is_flow_edge, insert_flow_edge, insert_flow_edges}
use ngraph.Assign.Invariant.{EndsKnown, IsSound}
use ngraph.Assign.Moves.{joined}
use ngraph.Assign.StaticInputs.{IsApart}

-- nothing is lost from one state of the detector to another
pub record Extends (gc : GraphCycles) (c d : gc.State) : Type 0 where
  pub live : (x : ℕ) → gc.alive c x ≡ true → gc.alive d x ≡ true
  pub edge : (x y : ℕ) → gc.has_edge c x y ≡ true → gc.has_edge d x y ≡ true

module _ (gc : GraphCycles) where
  pub Extends-refl : (c : gc.State) → Extends gc c c
  Extends-refl c = record { live = λ x h. h; edge = λ x y h. h }

  pub Extends-trans : {c d e : gc.State} → Extends gc c d → Extends gc d e → Extends gc c e
  Extends-trans p q = record {
    live = λ x h. q.live x (p.live x h);
    edge = λ x y h. q.edge x y (p.edge x y h);
  }

  pub IsSound-Extends :
      {g : Graph} {c d : gc.State} {m : ClusterMap}
      → Extends gc c d
      → IsSound gc g c m
      → IsSound gc g d m
  IsSound-Extends p s = record {
    members = s.members;
    root = s.root;
    live = λ v k. p.live _ (s.live v k);
    distinct = s.distinct;
  }

  pub IsApart-Extends :
      {g : Graph} {a b : ℕ} {c d : gc.State} {m : ClusterMap}
      → Extends gc c d
      → IsApart gc g a b c m
      → IsApart gc g a b d m
  IsApart-Extends p h = record {
    shadow = h.shadow;
    into = p.edge _ _ h.into;
    out = p.edge _ _ h.out;
    unused = h.unused;
  }

module _ (gc : GraphCycles) (laws : IsLawful gc) where
  pub insert_edge-Extends :
      (c : gc.State) (x y : ℕ)
      → gc.alive c x ≡ true
      → gc.alive c y ≡ true
      → Extends gc c (gc.insert_edge c x y).1
  insert_edge-Extends c x y h k = record {
    live = λ z a. laws.insert_edge_alive c x y z h k ∙ a;
    edge = λ u v e. laws.insert_edge_keeps c x y u v h k e;
  }

  pub new_node-Extends : (c : gc.State) → Extends gc c (gc.new_node c).1
  new_node-Extends c = record {
    live = λ z a. ground (arith, laws.new_node_alive c z, a);
    edge = λ u v e. laws.new_node_edges c u v ∙ e;
  }

  pub new_node_live : (c : gc.State) → gc.alive (gc.new_node c).1 (gc.new_node c).0 ≡ true
  new_node_live c = ground (
    arith,
    laws.new_node_alive c (gc.new_node c).0,
    nat_beq_iff (gc.new_node c).0 (gc.new_node c).0,
  )

module _ (gc : GraphCycles) (laws : IsLawful gc) (g : Graph) (ends : EndsKnown g)
    (m : ClusterMap) where
  record Inserted (c d : gc.State) (e : Edge) : Type 0 where
    grows : Extends gc c d
    joins : is_flow_edge g e ≡ true → joined gc d m e ≡ true

  insert_flow_edge-Inserted :
      (e : Edge) (c d : gc.State)
      → IsSound gc g c m
      → In e g.edges
      → insert_flow_edge gc g m e c ≡ ok d
      → Inserted c d e
  unfolding insert_flow_edge
  insert_flow_edge-Inserted e c d s i h =
      let src = s.live e.src (ends e i).0 in
      let dst = s.live e.dst (ends e i).1 in
      elim (Bool-cases (is_flow_edge g e)) [
        | inr skip ↦ record {
          grows = subst (Extends gc c) (ground arith) (Extends-refl gc c);
          joins = λ b. ground arith;
        }
        | inl flow ↦
            let d' : (gc.insert_edge c (index_of m e.src) (index_of m e.dst)).1 ≡ d =
              ground arith in
            let fits : (gc.insert_edge c (index_of m e.src) (index_of m e.dst)).0 ≡ true =
              ground arith in
            record {
              grows =
                  subst (Extends gc c) d'
                    (insert_edge-Extends gc laws c (index_of m e.src) (index_of m e.dst) src dst);
              joins = λ b.
                  subst (λ x. joined gc x m e ≡ true) d'
                    (laws.insert_edge_adds c (index_of m e.src) (index_of m e.dst) src dst fits);
            }
      ]

  pub record AllInserted (c d : gc.State) (es : List Edge) : Type 0 where
    pub grows : Extends gc c d
    pub joins : (e : Edge) → In e es → is_flow_edge g e ≡ true → joined gc d m e ≡ true

  pub insert_flow_edges-AllInserted :
      (es : List Edge) (c d : gc.State)
      → ((e : Edge) → In e es → In e g.edges)
      → IsSound gc g c m
      → insert_flow_edges gc g m es c ≡ ok d
      → AllInserted c d es
  unfolding insert_flow_edges
  insert_flow_edges-AllInserted [] c d sub s h = record {
    grows = subst (Extends gc c) (cc) (Extends-refl gc c);
    joins = λ e i. absurd (i tt);
  }
  insert_flow_edges-AllInserted (e ∷ es) c d sub s h =
      let (c', first, rest) =
        >>=-eq-ok (insert_flow_edge gc g m e c) (insert_flow_edges gc g m es) h in
      let one = insert_flow_edge-Inserted e c c' s (sub e (inl refl)) first in
      let more =
        insert_flow_edges-AllInserted es c' d (λ x i. sub x (inr i))
          (IsSound-Extends gc one.grows s) rest in
      record {
        grows = Extends-trans gc one.grows more.grows;
        joins = λ f i b. elim i [
          | inl p ↦
              more.grows.edge (index_of m f.src) (index_of m f.dst)
                (subst (λ x. is_flow_edge g x ≡ true → joined gc c' m x ≡ true) (sym p) one.joins b)
          | inr k ↦ more.joins f k b
        ];
      }
