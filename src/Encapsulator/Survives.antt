-- ===== src/Encapsulator/Survives.antt =====
-- The rewriting keeps every node that is in no cluster.
use ngraph.Prelude.{
  ℕ, String, ◌≡◌, refl, sym, ap, ◌∙◌, subst, true, false, none, List, [], ◌∷◌, ◌++◌, arith, ◌==◌,
  nat_eq, nat_beq_iff, string_eq, map, lookup, In, In-map, map-In, In-append_left, In-append_cases,
  filter-In, if◌then◌else◌, inl, inr,
}
use ngraph.Prelude.Int.{ℤ}
use ngraph.Prelude.Status.{ok}
use ngraph.Graph.{AttrValue, Node, Graph, ints, is_op, update_node, get_int}
use ngraph.Assign.Tag.{get_node_cluster}
use ngraph.Encapsulator.{Encapsulator, is_clustered, op_nodes}
use ngraph.Encapsulator.Rewrite.{
  NodeSpec, GraphEdits, in_key_order, encap_spec, set_device, install, finish_rewrite, rewrite_pass,
  config_attrs,
}
use ngraph.Encapsulator.Created.{create_encapsulates-keeps}
use ngraph.Encapsulator.Edited.{
  Edit, leaves, moves_control, moves_data, remap_edges-keeps, rewrite_pass-ok,
}
use ngraph.Encapsulator.Removed.{IsLawful, In-remove_clustered}

-- the nodes of `g` stay, and no clustered node is added
record Survive (g g' : Graph) : Type 0 where
  kept : (n : Node) → In n g.nodes → In n g'.nodes
  old : (n : Node) → In n g'.nodes → is_clustered n ≡ true → In n g.nodes

lookup-config :
    (config : List (String × String)) (rest : List (String × AttrValue))
    → lookup "_ngraph_cluster" config ≡ none
    → lookup "_ngraph_cluster" rest ≡ none
    → lookup "_ngraph_cluster" (config_attrs config ++ rest) ≡ none
unfolding lookup
lookup-config [] rest h k = k
lookup-config ((key, v) ∷ config) rest h k = ground (arith, lookup-config config rest)

encap_spec-unclustered :
    (graph_id c : ℤ) (device : String) (config : List (String × String)) (statics : List ℤ)
    (e : Encapsulator)
    → lookup "_ngraph_cluster" config ≡ none
    → lookup "_ngraph_cluster" (encap_spec graph_id c device config statics e).attrs ≡ none
unfolding encap_spec lookup
encap_spec-unclustered graph_id c device config statics e h =
    lookup-config config (("_ngraph_static_inputs", ints statics) ∷ []) h refl

set_device-clustered : (d : String) (n : Node) → is_clustered (set_device d n) ≡ is_clustered n
unfolding set_device is_clustered get_node_cluster get_int
set_device-clustered d n = refl

module _ (edits : GraphEdits) (laws : IsLawful edits) where
  install-Survive :
      (c : ℤ) (device : String) (spec : NodeSpec) (e : Encapsulator) (built : ℕ × Graph)
      → lookup "_ngraph_cluster" spec.attrs ≡ none
      → edits.finalize spec e.graph ≡ ok built
      → Survive e.graph (install c device e built).graph
  unfolding install update_node
  install-Survive c device spec e (v, g) clean h =
      let (n, nodes, own, free) = laws.finalize_nodes spec e.graph g v h in
      let fresh = laws.finalize_fresh spec e.graph g v in
      let put : Node → Node = λ z. if z.id == v then set_device device z else z in
      record {
        kept = λ x i.
            let same : put x ≡ x = ground (arith, fresh x h i, nat_beq_iff x.id v) in
            subst (λ z. In z (map put g.nodes)) same
              (In-map put x g.nodes
                (subst (In x) (sym nodes) (In-append_left x e.graph.nodes (n ∷ []) i)));
        old = λ x i own'.
            let (y, j, same) = map-In put x g.nodes i in
            let clustered : is_clustered y ≡ true =
              ground (arith, ap is_clustered same, set_device-clustered device y) in
            elim (In-append_cases y e.graph.nodes (n ∷ []) (subst (In y) nodes j)) [
              | inl before ↦
                  let still : put y ≡ y = ground (arith, fresh y h before, nat_beq_iff y.id v) in
                  subst (λ z. In z e.graph.nodes) (sym (same ∙ still)) before
              | inr (inl new) ↦ absurd (ground (arith, free clean, ap is_clustered new))
              | inr (inr out) ↦ absurd (out tt)
            ];
      }

  Survive-trans : {a b c : Graph} → Survive a b → Survive b c → Survive a c
  Survive-trans s t = record {
    kept = λ n i. t.kept n (s.kept n i);
    old = λ n i p. s.old n (t.old n i p) p;
  }

  same_nodes : {a b : Graph} → b.nodes ≡ a.nodes → Survive a b
  same_nodes e = record { kept = λ n. subst (In n) (sym e); old = λ n i p. subst (In n) e i }

  Edit-Survive : (g g' : Graph) → Edit edits g g' → Survive g g'
  Edit-Survive g g' leaves = same_nodes refl
  Edit-Survive g g' (moves_control s d x) = same_nodes (
      laws.add_control_edge_nodes s d (edits.remove_control_edge x g)
      ∙ laws.remove_control_edge_nodes x g)
  Edit-Survive g g' (moves_data v k x t h) =
      same_nodes (laws.update_edge_nodes v k x.dst x.dst_input g t h)

  -- When RewritePass succeeds, each node of the graph that is in no cluster is still there, unchanged.
  -- The graph's ids tell its nodes apart, and the device's configuration has no `_ngraph_cluster`.
  pub rewrite_pass-kept :
      (graph_id : ℤ) (config : List (String × String)) (e e' : Encapsulator) (n : Node)
      → ((a b : Node) → In a e.graph.nodes → In b e.graph.nodes → a.id ≡ b.id → a ≡ b)
      → lookup "_ngraph_cluster" config ≡ none
      → rewrite_pass edits graph_id config e ≡ ok e'
      → In n e.graph.nodes
      → is_clustered n ≡ false
      → In n e'.graph.nodes
  unfolding finish_rewrite op_nodes
  rewrite_pass-kept graph_id config e e' n unique clean h i free =
      let (_, _, e₁, e₂, p, q, same) = rewrite_pass-ok edits graph_id config e e' h in
      let P : Encapsulator → Type 0 = λ z. Survive e.graph z.graph in
      let created : Survive e.graph e₁.graph =
        create_encapsulates-keeps edits graph_id config P
          (λ c d a b made s. Survive-trans s (
            subst (λ z. Survive a.graph z.graph) made.installed
              (install-Survive c d (encap_spec graph_id c d config made.statics a) a made.built
                (encap_spec-unclustered graph_id c d config made.statics a clean) made.finalized)))
          (in_key_order e.device_name_map) e e₁ p (same_nodes refl) in
      let edited : Survive e.graph e₂.graph =
        remap_edges-keeps edits P (λ z g edit s. Survive-trans s (Edit-Survive z.graph g edit))
          e₁.graph.edges e₁ e₂ q created in
      subst (λ z. In n z.graph.nodes) same
        (In-remove_clustered edits laws n (op_nodes e₂.graph) e₂.graph (edited.kept n i)
          (λ b j own ids.
            let old = edited.old b (filter-In (λ z. is_op z.id) e₂.graph.nodes b j).0 own in
            let one = unique n b i old ids in ground (arith, free, own, ap is_clustered one)))
