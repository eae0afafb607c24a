-- ===== src/Assign/Shadows.antt =====
-- The shadow nodes that AssignClusters puts between the two ends of a static input.
use ngraph.Prelude.{
  ℕ, zero, suc, ◌≡◌, ◌≢◌, sym, ◌∙◌, true, ◌&&◌, List, [], ◌∷◌, arith, ◌==◌, nat_eq, string_eq, inl,
  inr, In, some, Bool-cases, subst, Option-cases, List-cases,
}
use mathlib.Core.Bool.{false≢true}
use ngraph.Prelude.Int.{ℤ, pos, negsuc, int_eq}
use ngraph.Prelude.Status.{ok, ◌>>=◌, >>=-eq-ok}
use ngraph.Graph.{Node, Edge, Graph, is_op, node_at, input_edges, input_edges_from, find_input}
use ngraph.GraphCycles.{GraphCycles, IsLawful}
use ngraph.Mark.Access.{get_static_inputs}
use ngraph.Assign.Cluster.{ClusterMap, index_of}
use ngraph.Assign.Setup.{read_edge, insert_shadow, insert_shadows, shadow_node, shadow_nodes}
use ngraph.Assign.Invariant.{EndsKnown, IsSound}
use ngraph.Assign.StaticInputs.{IsApart}
use ngraph.Assign.Extends.{
  Extends, Extends-refl, Extends-trans, IsSound-Extends, IsApart-Extends, insert_edge-Extends,
  new_node-Extends, new_node_live,
}

read_edge-In : (es : List Edge) (i : ℤ) (e : Edge) → read_edge es i ≡ ok e → In e es
unfolding read_edge
read_edge-In es (negsuc i) e h = cc
read_edge-In [] (pos i) e h = cc
read_edge-In (x ∷ es) (pos zero) e h = inl (cc)
read_edge-In (x ∷ es) (pos (suc i)) e h = inr (read_edge-In es (pos i) e h)

find_input-In : (es : List Edge) (v i : ℕ) (e : Edge) → find_input es v i ≡ some e → In e es
unfolding find_input
find_input-In [] v i e h = cc
find_input-In (x ∷ es) v i e h = elim (Bool-cases (x.dst == v && x.dst_input == pos i)) [
  | inl hit ↦ inl (ground arith)
  | inr miss ↦ inr (find_input-In es v i e (ground arith))
]

input_edges_from-In :
    (g : Graph) (v i k : ℕ) (es : List Edge)
    → input_edges_from g v i k ≡ ok es
    → (e : Edge) → In e es
    → In e g.edges
unfolding input_edges_from
input_edges_from-In g v i zero es h e m = absurd (subst (In e) (sym (ok-inj es h)) m tt)
  where
    ok-inj : (ys : List Edge) → ok [] ≡ ok ys → [] ≡ ys
    ok-inj ys p = cc
input_edges_from-In g v i (suc k) es h e m = elim (Option-cases (find_input g.edges v i)) [
  | inl missing ↦ absurd (ground arith)
  | inr (x, found) ↦
      let (rest, more, whole) =
        >>=-eq-ok (input_edges_from g v (suc i) k) (λ r. ok (x ∷ r)) (ground arith) in
      elim (subst (In e) (ok-inj x rest es whole) m) [
        | inl p ↦ subst (λ y. In y g.edges) (sym p) (find_input-In g.edges v i x found)
        | inr j ↦ input_edges_from-In g v (suc i) k rest more e j
      ]
]
  where
    ok-inj : (x : Edge) (r ys : List Edge) → ok (x ∷ r) ≡ ok ys → ys ≡ x ∷ r
    ok-inj x r ys p = cc

input_edges-In :
    (g : Graph) (n : Node) (es : List Edge)
    → input_edges g n ≡ ok es
    → (e : Edge) → In e es
    → In e g.edges
unfolding input_edges
input_edges-In g n es h = input_edges_from-In g n.id 0 n.num_inputs es h

module _ (gc : GraphCycles) (laws : IsLawful gc) (g : Graph) (ends : EndsKnown g)
    (m : ClusterMap) where
  insert_shadow-Extends :
      (e : Edge) (c d : gc.State)
      → IsSound gc g c m
      → In e g.edges
      → insert_shadow gc g m e c ≡ ok d
      → Extends gc c d × ((node_at g e.src).type_string ≢ "Const" → IsApart gc g e.src e.dst d m)
  unfolding insert_shadow
  insert_shadow-Extends e c d s i h = elim (Bool-cases ((node_at g e.src).type_string == "Const")) [
    | inl const ↦ (
      subst (Extends gc c) (ground arith) (Extends-refl gc c),
      λ n. absurd (n ((string_eq.beq_iff (node_at g e.src).type_string "Const").0 const)),
    )
    | inr other ↦
        let a = index_of m e.src in
        let b = index_of m e.dst in
        let sh = (gc.new_node c).0 in
        let c1 = (gc.new_node c).1 in
        let c2 = (gc.insert_edge c1 a sh).1 in
        let c3 = (gc.insert_edge c2 sh b).1 in
        let into : (gc.insert_edge c1 a sh).0 ≡ true = ground arith in
        let out : (gc.insert_edge c2 sh b).0 ≡ true = ground arith in
        let last : c3 ≡ d = ground arith in
        let g1 = new_node-Extends gc laws c in
        let la = g1.live a (s.live e.src (ends e i).0) in
        let g2 = insert_edge-Extends gc laws c1 a sh la (new_node_live gc laws c) in
        let lsh = g2.live sh (new_node_live gc laws c) in
        let lb = g2.live b (g1.live b (s.live e.dst (ends e i).1)) in
        let g3 = insert_edge-Extends gc laws c2 sh b lsh lb in
        (
          subst (Extends gc c) last (Extends-trans gc g1 (Extends-trans gc g2 g3)),
          λ n.
              subst (λ x. IsApart gc g e.src e.dst x m) last
                (record {
                  shadow = sh;
                  into =
                      g3.edge a sh
                        (laws.insert_edge_adds c1 a sh la (new_node_live gc laws c) into);
                  out = laws.insert_edge_adds c2 sh b lsh lb out;
                  unused = λ v k p. cc (s.live v k, laws.new_node_fresh c, p);
                }),
        )
  ]

  insert_shadows-Extends :
      (edges : List Edge) (is : List ℤ) (c d : gc.State)
      → ((e : Edge) → In e edges → In e g.edges)
      → IsSound gc g c m
      → insert_shadows gc g m edges is c ≡ ok d
      → Extends gc c d
        × ((i : ℤ) (e : Edge)
            → In i is
            → read_edge edges i ≡ ok e
            → (node_at g e.src).type_string ≢ "Const"
            → IsApart gc g e.src e.dst d m)
  unfolding insert_shadows
  insert_shadows-Extends edges [] c d sub s h =
      (subst (Extends gc c) (cc) (Extends-refl gc c), λ i e k. absurd (k tt))
  insert_shadows-Extends edges (i ∷ is) c d sub s h =
      let (e, read, h') =
        >>=-eq-ok (read_edge edges i)
          (λ e. insert_shadow gc g m e c >>= insert_shadows gc g m edges is) h in
      let (c', first, rest) =
        >>=-eq-ok (insert_shadow gc g m e c) (insert_shadows gc g m edges is) h' in
      let one = insert_shadow-Extends e c c' s (sub e (read_edge-In edges i e read)) first in
      let more = insert_shadows-Extends edges is c' d sub (IsSound-Extends gc one.0 s) rest in
      (
        Extends-trans gc one.0 more.0,
        λ j f k r n. elim k [
          | inl p ↦
              let same : e ≡ f = cc in
              IsApart-Extends gc more.0 (
                subst (λ x. (node_at g x.src).type_string ≢ "Const" → IsApart gc g x.src x.dst c' m)
                  same one.1 n)
          | inr k' ↦ more.1 j f k' r n
        ],
      )

-- `e` feeds a static input of the node `n`, and no constant does
pub record IsStaticEdge (g : Graph) (n : Node) (e : Edge) : Type 0 where
  pub op : is_op n.id ≡ true
  pub edges : List Edge
  pub inputs : input_edges g n ≡ ok edges
  pub index : ℤ
  pub static : In index (get_static_inputs n)
  pub read : read_edge edges index ≡ ok e
  pub not_const : (node_at g e.src).type_string ≢ "Const"

module _ (gc : GraphCycles) (laws : IsLawful gc) (g : Graph) (ends : EndsKnown g)
    (m : ClusterMap) where
  shadow_node-Extends :
      (n : Node) (c d : gc.State)
      → IsSound gc g c m
      → shadow_node gc g m n c ≡ ok d
      → Extends gc c d × ((e : Edge) → IsStaticEdge g n e → IsApart gc g e.src e.dst d m)
  unfolding shadow_node
  shadow_node-Extends n c d s h = elim (Bool-cases (is_op n.id)) [
    | inr skip ↦ (
      subst (Extends gc c) (ground arith) (Extends-refl gc c),
      λ e st. absurd (false≢true (sym skip ∙ st.op)),
    )
    | inl op ↦ elim (List-cases (get_static_inputs n)) [
      | inl none' ↦ (
        subst (Extends gc c) (ground arith) (Extends-refl gc c),
        λ e st. absurd (subst (In st.index) none' st.static tt),
      )
      | inr (i, is, some') ↦
          let (edges, inputs, rest) =
            >>=-eq-ok (input_edges g n) (λ es. insert_shadows gc g m es (i ∷ is) c) {b = d}
              (ground arith) in
          let all =
            insert_shadows-Extends gc laws g ends m edges (i ∷ is) c d
              (input_edges-In g n edges inputs) s rest in
          (
            all.0,
            λ e st.
                all.1 st.index e (subst (In st.index) some' st.static)
                  (subst (λ es. read_edge es st.index ≡ ok e)
                    (edges-eq st.edges edges (sym st.inputs ∙ inputs)) st.read)
                  st.not_const,
          )
    ]
  ]
    where
      edges-eq : (xs ys : List Edge) → ok xs ≡ ok ys → xs ≡ ys
      edges-eq xs ys p = cc

  pub shadow_nodes-Extends :
      (ns : List Node) (c d : gc.State)
      → IsSound gc g c m
      → shadow_nodes gc g m ns c ≡ ok d
      → Extends gc c d
        × ((n : Node) → In n ns → (e : Edge) → IsStaticEdge g n e → IsApart gc g e.src e.dst d m)
  unfolding shadow_nodes
  shadow_nodes-Extends [] c d s h =
      (subst (Extends gc c) (cc) (Extends-refl gc c), λ n i. absurd (i tt))
  shadow_nodes-Extends (n ∷ ns) c d s h =
      let (c', first, rest) = >>=-eq-ok (shadow_node gc g m n c) (shadow_nodes gc g m ns) h in
      let one = shadow_node-Extends n c c' s first in
      let more = shadow_nodes-Extends ns c' d (IsSound-Extends gc one.0 s) rest in
      (
        Extends-trans gc one.0 more.0,
        λ k i e st. elim i [
          | inl p ↦ IsApart-Extends gc more.0 (one.1 e (subst (λ x. IsStaticEdge g x e) p st))
          | inr i' ↦ more.1 k i' e st
        ],
      )
