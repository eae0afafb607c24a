-- ===== src/Encapsulator/Installed.antt =====
-- The nodes that pass 3 of the rewriting leaves for the clusters.
use ngraph.Prelude.{
  ℕ, String, ◌≡◌, refl, sym, ap, subst, false, some, List, [], ◌∷◌, arith, ◌==◌, nat_eq,
  nat_beq_iff, string_eq, map, lookup, update_self, In, In-map, In-append_left, In-append_right,
  if◌then◌else◌, Bool-cases, inl, inr,
}
use ngraph.Prelude.Int.{ℤ, int_eq}
use ngraph.Prelude.Status.{ok, >>=-eq-ok}
use ngraph.Graph.{AttrValue, Node, Graph, int, update_node, get_int}
use ngraph.Encapsulator.{Encapsulator}
use ngraph.Encapsulator.Rewrite.{
  NodeSpec, GraphEdits, encap_spec, encap_node_name, set_device, install, create_encapsulate,
  create_encapsulates,
}
use ngraph.Encapsulator.Steps.{ok_inj}
use ngraph.Encapsulator.Created.{IsCreated, create_encapsulate-IsCreated}
use ngraph.Encapsulator.Removed.{IsLawful}

-- A node that is built has the name, the type and the attributes that were given.
pub record IsBuilding (edits : GraphEdits) : Type 0 where
  pub finalize_built :
      (spec : NodeSpec) (g g' : Graph) (v : ℕ) (n : Node)
      → edits.finalize spec g ≡ ok (v, g')
      → In n g'.nodes
      → n.id ≡ v
      → (n.name ≡ spec.name)
        × (n.type_string ≡ spec.type_string)
        × ((k : String) (a : AttrValue) → lookup k spec.attrs ≡ some a → lookup k n.attrs ≡ some a)

-- the pointer that is kept for the cluster is that of a node of the graph, the encapsulate node of
-- the cluster on the device
pub record HasNode (c : ℤ) (device : String) (e : Encapsulator) : Type 0 where
  pub pointer : ℕ
  pub kept : e.cluster_node_map c ≡ some pointer
  pub node : Node
  pub there : In node e.graph.nodes
  pub id : node.id ≡ pointer
  pub name : node.name ≡ encap_node_name c
  pub type_string : node.type_string ≡ "_nGraphEncapsulate"
  pub cluster : get_int node "ngraph_cluster" ≡ some c
  pub placed : node.device ≡ device

module _ (edits : GraphEdits) (laws : IsLawful edits) (building : IsBuilding edits) (graph_id : ℤ)
    (config : List (String × String)) where
  IsCreated-HasNode :
      (c : ℤ) (d : String) (e e' : Encapsulator)
      → IsCreated edits graph_id config c d e e'
      → HasNode c d e'
  unfolding install update_node set_device encap_spec get_int lookup
  IsCreated-HasNode c d e e' p =
      let spec = encap_spec graph_id c d config p.statics e in
      let (n, nodes, own, _) = laws.finalize_nodes spec e.graph p.built.1 p.built.0 p.finalized in
      let put : Node → Node = λ z. if z.id == p.built.0 then set_device d z else z in
      let new : put n ≡ set_device d n = ground (arith, own, nat_beq_iff n.id p.built.0) in
      let among : In n p.built.1.nodes =
        subst (In n) (sym nodes) (In-append_right n e.graph.nodes (n ∷ []) (inl refl)) in
      let (named, typed, attrs) =
        building.finalize_built spec e.graph p.built.1 p.built.0 n p.finalized among own in
      let attr = attrs "ngraph_cluster" (int c) refl in
      subst (HasNode c d) p.installed (record {
        pointer = p.built.0;
        kept = update_self e.cluster_node_map c (some p.built.0);
        node = set_device d n;
        there =
            subst (λ z. In z (map put p.built.1.nodes)) new (In-map put n p.built.1.nodes among);
        id = own;
        name = named;
        type_string = typed;
        cluster = ground (arith, attr);
        placed = refl;
      })

  -- the node of another cluster stays
  IsCreated-other :
      (c j : ℤ) (device d : String) (e e' : Encapsulator)
      → (c == j) ≡ false
      → IsCreated edits graph_id config j d e e'
      → HasNode c device e
      → HasNode c device e'
  unfolding install update_node
  IsCreated-other c j device d e e' apart p h =
      let spec = encap_spec graph_id j d config p.statics e in
      let (n, nodes, _, _) = laws.finalize_nodes spec e.graph p.built.1 p.built.0 p.finalized in
      let fresh = laws.finalize_fresh spec e.graph p.built.1 p.built.0 h.node p.finalized h.there in
      let put : Node → Node = λ z. if z.id == p.built.0 then set_device d z else z in
      let same : put h.node ≡ h.node = ground (arith, fresh, nat_beq_iff h.node.id p.built.0) in
      let among : In h.node p.built.1.nodes =
        subst (In h.node) (sym nodes) (In-append_left h.node e.graph.nodes (n ∷ []) h.there) in
      subst (HasNode c device) p.installed (record {
        pointer = h.pointer;
        kept = ground (arith, apart, h.kept);
        node = h.node;
        there =
            subst (λ z. In z (map put p.built.1.nodes)) same
              (In-map put h.node p.built.1.nodes among);
        id = h.id;
        name = h.name;
        type_string = h.type_string;
        cluster = h.cluster;
        placed = h.placed;
      })

  IsCreated-keeps :
      (c j : ℤ) (device d : String) (e e' : Encapsulator)
      → (c ≡ j → d ≡ device)
      → IsCreated edits graph_id config j d e e'
      → HasNode c device e
      → HasNode c device e'
  IsCreated-keeps c j device d e e' one p h = elim (Bool-cases (c == j)) [
    | inl own ↦
        let at = (int_eq.beq_iff c j).0 own in
        subst (λ z. HasNode z device e') (sym at)
          (subst (λ z. HasNode j z e') (one at) (IsCreated-HasNode j d e e' p))
    | inr other ↦ IsCreated-other c j device d e e' other p h
  ]

  create_encapsulates-HasNode :
      (m : List (ℤ × String)) (e e' : Encapsulator) (c : ℤ) (device : String)
      → create_encapsulates edits graph_id config m e ≡ ok e'
      → ((d : String) → In (c, d) m → d ≡ device)
      → HasNode c device e
      → HasNode c device e'
  unfolding create_encapsulates
  create_encapsulates-HasNode [] e e' c device h one p = subst (HasNode c device) (ok_inj h) p
  create_encapsulates-HasNode ((j, d) ∷ m) e e' c device h one p =
      let (e₁, q, rest) =
        >>=-eq-ok (create_encapsulate edits graph_id config j d e)
          (create_encapsulates edits graph_id config m) h in
      let made = create_encapsulate-IsCreated edits graph_id config j d e e₁ q in
      create_encapsulates-HasNode m e₁ e' c device rest (λ z i. one z (inr i))
        (IsCreated-keeps c j device d e e₁ (λ same. one d (inl (ap (λ z. (z, d)) same))) made p)

  -- Of the edits it is assumed that a new node has a new id and what it was given. When pass 3
  -- succeeds, the pointer that it keeps for a cluster of the device map, which has one
  -- device for the cluster, is that of a node of its graph: a node of the type `_nGraphEncapsulate`
  -- with the name of the cluster, the number of the cluster as its attribute, and the device of the
  -- map.
  pub create_encapsulates-node :
      (m : List (ℤ × String)) (e e' : Encapsulator) (c : ℤ) (device : String)
      → create_encapsulates edits graph_id config m e ≡ ok e'
      → In (c, device) m
      → ((d : String) → In (c, d) m → d ≡ device)
      → HasNode c device e'
  unfolding create_encapsulates
  create_encapsulates-node [] e e' c device h i one = absurd (i tt)
  create_encapsulates-node ((j, d) ∷ m) e e' c device h i one =
      let (e₁, q, rest) =
        >>=-eq-ok (create_encapsulate edits graph_id config j d e)
          (create_encapsulates edits graph_id config m) h in
      let made = create_encapsulate-IsCreated edits graph_id config j d e e₁ q in
      elim i [
        | inl here ↦
            let first : HasNode c device e₁ =
              subst (λ z. HasNode z.0 z.1 e₁) (sym here) (IsCreated-HasNode j d e e₁ made) in
            create_encapsulates-HasNode m e₁ e' c device rest (λ z k. one z (inr k)) first
        | inr later ↦ create_encapsulates-node m e₁ e' c device rest later (λ z k. one z (inr k))
      ]
