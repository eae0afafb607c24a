-- ===== src/Encapsulator/Edited.antt =====
-- Pass 4 of the rewriting writes only edges, through the graph's edits.
use ngraph.Prelude.{
  ℕ, String, ◌≡◌, subst, true, false, List, [], ◌∷◌, arith, ◌==◌, nat_eq, string_eq, pair_eq,
  lookup, Bool-cases, Option-cases, inl, inr,
}
use ngraph.Prelude.Int.{ℤ, int_eq}
use ngraph.Prelude.Status.{Status, ok, >>=-eq-ok, ◌>>=◌}
use ngraph.Graph.{Edge, Graph, is_control_edge, node_at}
use ngraph.Encapsulator.{Encapsulator, cluster_idx, is_clustered}
use ngraph.Encapsulator.Rewrite.{
  GraphEdits, in_key_order, deref, control_end, remap_edge, remap_edges, create_encapsulates,
  finish_rewrite, rewrite_pass,
}
use ngraph.Encapsulator.Steps.{ok_inj}

module _ (edits : GraphEdits) where
  -- one edit of edges
  pub data Edit (g : Graph) : Graph → Type 0 where
    leaves : Edit g g
    moves_control :
        (s d : ℕ) (x : Edge) → Edit g (edits.add_control_edge s d (edits.remove_control_edge x g))
    moves_data :
        (v k : ℕ) (x : Edge) (g' : Graph)
        → edits.update_edge v k x.dst x.dst_input g ≡ ok g'
        → Edit g g'

  control_edge-Edit :
      (x : Edge) (e e' : Encapsulator)
      → (control_end e x.src >>= λ s. control_end e x.dst >>= λ d.
          ok
            (record e { graph = edits.add_control_edge s d (edits.remove_control_edge x e.graph) }))
        ≡ ok e'
      → (g : Graph) × Edit e.graph g × (record e { graph = g } ≡ e')
  control_edge-Edit x e e' h =
      let put : ℕ → ℕ → Status Encapsulator = λ s d.
        ok
          (record e { graph = edits.add_control_edge s d (edits.remove_control_edge x e.graph) }) in
      let (s, _, h₁) = >>=-eq-ok (control_end e x.src) (λ s. control_end e x.dst >>= put s) h in
      let (d, _, h₂) = >>=-eq-ok (control_end e x.dst) (put s) h₁ in
      (
        edits.add_control_edge s d (edits.remove_control_edge x e.graph),
        moves_control s d x,
        ok_inj h₂,
      )

  data_edge-Edit :
      (x : Edge) (c : ℤ) (k : ℕ) (e e' : Encapsulator)
      → (deref (e.cluster_node_map c) >>= λ v.
          edits.update_edge v k x.dst x.dst_input e.graph >>= λ g. ok (record e { graph = g }))
        ≡ ok e'
      → (g : Graph) × Edit e.graph g × (record e { graph = g } ≡ e')
  data_edge-Edit x c k e e' h =
      let put : Graph → Status Encapsulator = λ g. ok (record e { graph = g }) in
      let (v, _, h₁) =
        >>=-eq-ok (deref (e.cluster_node_map c))
          (λ v. edits.update_edge v k x.dst x.dst_input e.graph >>= put) h in
      let (g, p, h₂) = >>=-eq-ok (edits.update_edge v k x.dst x.dst_input e.graph) put h₁ in
      (g, moves_data v k x g p, ok_inj h₂)

  remap_edge-Edit :
      (x : Edge) (e e' : Encapsulator)
      → remap_edge edits x e ≡ ok e'
      → (g : Graph) × Edit e.graph g × (record e { graph = g } ≡ e')
  unfolding remap_edge
  remap_edge-Edit x e e' h =
      let src = node_at e.graph x.src in
      let dst = node_at e.graph x.dst in
      elim (Bool-cases (cluster_idx src == cluster_idx dst)) [
        | inl p ↦ (e.graph, leaves, ok_inj (ground arith))
        | inr p ↦ elim (Bool-cases (is_control_edge x)) [
          | inl q ↦ control_edge-Edit x e e' (ground arith)
          | inr q ↦ elim (Bool-cases (is_clustered dst)) [
            | inl r ↦ (e.graph, leaves, ok_inj (ground arith))
            | inr r ↦ elim (Option-cases (lookup (x.src, x.src_output) e.output_remap_map)) [
              | inl out ↦ (e.graph, leaves, ok_inj (ground arith))
              | inr ((c, k), found) ↦ data_edge-Edit x c k e e' (ground arith)
            ]
          ]
        ]
      ]

  -- a property of encapsulators that each edit of edges keeps holds after pass 4
  pub remap_edges-keeps {ℓ} :
      (P : Encapsulator → Type ℓ)
      → ((e : Encapsulator) (g : Graph) → Edit e.graph g → P e → P (record e { graph = g }))
      → (xs : List Edge) (e e' : Encapsulator) → remap_edges edits xs e ≡ ok e'
      → P e
      → P e'
  unfolding remap_edges
  remap_edges-keeps P step [] e e' h p = subst P (ok_inj h) p
  remap_edges-keeps P step (x ∷ xs) e e' h p =
      let (e₁, q, rest) = >>=-eq-ok (remap_edge edits x e) (remap_edges edits xs) h in
      let (g, edit, same) = remap_edge-Edit x e e₁ q in
      remap_edges-keeps P step xs e₁ e' rest (subst P same (step e g edit p))

  -- the passes of a rewriting that succeeds
  pub rewrite_pass-ok :
      (graph_id : ℤ) (config : List (String × String)) (e e' : Encapsulator)
      → rewrite_pass edits graph_id config e ≡ ok e'
      → (e.analysis_done ≡ true)
        × (e.rewrite_done ≡ false)
        × (e₁ e₂ : Encapsulator) × (create_encapsulates edits graph_id config
              (in_key_order e.device_name_map)
              e
            ≡ ok e₁)
        × (remap_edges edits e₁.graph.edges e₁ ≡ ok e₂)
        × (finish_rewrite edits e₂ ≡ e')
  unfolding rewrite_pass
  rewrite_pass-ok graph_id config e e' h = elim (Bool-cases e.analysis_done) [
    | inr bad ↦ absurd (ground arith)
    | inl ready ↦ elim (Bool-cases e.rewrite_done) [
      | inl bad ↦ absurd (ground arith)
      | inr first ↦
          let put : Encapsulator → Status Encapsulator = λ e₂. ok (finish_rewrite edits e₂) in
          let (e₁, p, h₁) =
            >>=-eq-ok (create_encapsulates edits graph_id config (in_key_order e.device_name_map) e)
              (λ e₁. remap_edges edits e₁.graph.edges e₁ >>= put) {b = e'} (ground arith) in
          let (e₂, q, h₂) = >>=-eq-ok (remap_edges edits e₁.graph.edges e₁) put h₁ in
          (ready, first, e₁, e₂, p, q, ok_inj h₂)
    ]
  ]
