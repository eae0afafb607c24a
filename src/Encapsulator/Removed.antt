-- ===== src/Encapsulator/Removed.antt =====
-- What the rewriting leaves in the graph: no clustered op, and every other node.
use ngraph.Prelude.{
  ℕ, String, ◌≡◌, ◌≢◌, refl, sym, ap, subst, true, false, not, none, List, [], ◌∷◌, ◌++◌, arith,
  ◌==◌, nat_eq, nat_beq_iff, string_eq, lookup, In, filter, filter-In, In-filter, if◌then◌else◌,
  Bool-cases, inl, inr,
}
use ngraph.Prelude.Int.{ℤ}
use ngraph.Prelude.Status.{ok}
use ngraph.Graph.{Node, Edge, Graph, is_op}
use ngraph.Encapsulator.{Encapsulator, is_clustered, op_nodes}
use ngraph.Encapsulator.Rewrite.{
  NodeSpec, GraphEdits, remove_clustered, finish_rewrite, rewrite_pass,
}
use ngraph.Encapsulator.Edited.{rewrite_pass-ok}

-- What TensorFlow's edits do to the nodes. A node that is built has a new id, and the attribute of
-- a cluster only if it was given.
pub record IsLawful (edits : GraphEdits) : Type 0 where
  pub finalize_nodes :
      (spec : NodeSpec) (g g' : Graph) (v : ℕ)
      → edits.finalize spec g ≡ ok (v, g')
      → (n : Node) × (g'.nodes ≡ g.nodes ++ n ∷ [])
        × (n.id ≡ v)
        × (lookup "_ngraph_cluster" spec.attrs ≡ none → is_clustered n ≡ false)
  pub finalize_fresh :
      (spec : NodeSpec) (g g' : Graph) (v : ℕ) (n : Node)
      → edits.finalize spec g ≡ ok (v, g')
      → In n g.nodes
      → n.id ≢ v
  pub remove_control_edge_nodes :
      (x : Edge) (g : Graph) → (edits.remove_control_edge x g).nodes ≡ g.nodes
  pub add_control_edge_nodes :
      (s d : ℕ) (g : Graph) → (edits.add_control_edge s d g).nodes ≡ g.nodes
  pub update_edge_nodes :
      (v k w : ℕ) (slot : ℤ) (g g' : Graph)
      → edits.update_edge v k w slot g ≡ ok g'
      → g'.nodes ≡ g.nodes
  pub remove_node_nodes :
      (v : ℕ) (g : Graph) → (edits.remove_node v g).nodes ≡ filter (λ n. not (n.id == v)) g.nodes

module _ (edits : GraphEdits) (laws : IsLawful edits) where
  -- pass 6 keeps a node if no clustered node of the list has its id
  remove_clustered-In :
      (n : Node) (ns : List Node) (g : Graph)
      → In n (remove_clustered edits ns g).nodes
      → In n g.nodes × ((b : Node) → In b ns → is_clustered b ≡ true → n.id ≢ b.id)
  unfolding remove_clustered
  remove_clustered-In n [] g i = (i, λ b j. absurd (j tt))
  remove_clustered-In n (x ∷ ns) g i = elim (Bool-cases (is_clustered x)) [
    | inl own ↦
        let (j, apart) = remove_clustered-In n ns (edits.remove_node x.id g) (
          subst
            (λ z.
              In n (remove_clustered edits ns (if z then edits.remove_node x.id g else g)).nodes)
            own i) in
        let (k, other) =
          filter-In (λ z. not (z.id == x.id)) g.nodes n
            (subst (In n) (laws.remove_node_nodes x.id g) j) in
        (
          k,
          λ b l c. elim l [
            | inl e ↦
                subst (λ z. n.id ≢ z.id) (sym e) (λ same. ground (arith, nat_beq_iff n.id x.id))
            | inr r ↦ apart b r c
          ],
        )
    | inr free ↦
        let (j, apart) = remove_clustered-In n ns g (
          subst
            (λ z.
              In n (remove_clustered edits ns (if z then edits.remove_node x.id g else g)).nodes)
            free i) in
        (
          j,
          λ b l c. elim l [
            | inl e ↦ absurd (ground (arith, ap is_clustered e))
            | inr r ↦ apart b r c
          ],
        )
  ]

  pub In-remove_clustered :
      (n : Node) (ns : List Node) (g : Graph)
      → In n g.nodes
      → ((b : Node) → In b ns → is_clustered b ≡ true → n.id ≢ b.id)
      → In n (remove_clustered edits ns g).nodes
  unfolding remove_clustered
  In-remove_clustered n [] g i apart = i
  In-remove_clustered n (x ∷ ns) g i apart = elim (Bool-cases (is_clustered x)) [
    | inl own ↦
        subst
          (λ z. In n (remove_clustered edits ns (if z then edits.remove_node x.id g else g)).nodes)
          (sym own)
          (In-remove_clustered n ns (edits.remove_node x.id g)
            (subst (In n) (sym (laws.remove_node_nodes x.id g)) (
              In-filter (λ z. not (z.id == x.id)) g.nodes n i
                (elim (Bool-cases (n.id == x.id)) [
                  | inl same ↦ absurd (apart x (inl refl) own ((nat_beq_iff n.id x.id).0 same))
                  | inr other ↦ ap not other
                ])))
            (λ b j c. apart b (inr j) c))
    | inr free ↦
        subst
          (λ z. In n (remove_clustered edits ns (if z then edits.remove_node x.id g else g)).nodes)
          (sym free) (In-remove_clustered n ns g i (λ b j c. apart b (inr j) c))
  ]

  -- When RewritePass succeeds, no op of the graph is in a cluster.
  pub rewrite_pass-unclustered :
      (graph_id : ℤ) (config : List (String × String)) (e e' : Encapsulator) (n : Node)
      → rewrite_pass edits graph_id config e ≡ ok e'
      → In n (op_nodes e'.graph)
      → is_clustered n ≡ false
  unfolding finish_rewrite op_nodes
  rewrite_pass-unclustered graph_id config e e' n h i =
      let (_, _, e₁, e₂, _, _, same) = rewrite_pass-ok edits graph_id config e e' h in
      let (j, op) =
        filter-In (λ z. is_op z.id) (finish_rewrite edits e₂).graph.nodes n
          (subst (λ z. In n (op_nodes z.graph)) (sym same) i) in
      let (k, apart) = remove_clustered-In n (op_nodes e₂.graph) e₂.graph j in
      elim (Bool-cases (is_clustered n)) [
        | inl own ↦ absurd (apart n (In-filter (λ z. is_op z.id) e₂.graph.nodes n k op) own refl)
        | inr free ↦ free
      ]
