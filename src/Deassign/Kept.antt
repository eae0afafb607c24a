-- ===== src/Deassign/Kept.antt =====
-- Which nodes keep their cluster in the deassignment pass.
use ngraph.Prelude.{
  ℕ, ◌≡◌, refl, sym, ◌∙◌, subst, Bool, true, false, ◌&&◌, ◌||◌, Option, none, some, List, [], ◌∷◌,
  nat_eq, string_eq, nat_beq_iff, if◌then◌else◌, contains, count, lookup, arith,
}
use ngraph.Prelude.Int.{ℤ, int_eq}
use ngraph.Graph.{Graph, ids, node_at}
use ngraph.Assign.Invariant.{Known}
use ngraph.Assign.Moves.{marked}
use ngraph.Assign.Tagged.{cluster_at}
use ngraph.Deassign.{
  Deassigned, or_empty, cluster_members, non_trivial_count, bust, is_small, bust_clusters,
  deassign_clusters, nodes_with_cluster,
}
use ngraph.Deassign.Busted.{Busted, Busted-none, Busted-trans, bust_if-Busted}
use ngraph.Deassign.Filed.{
  NoRepeat, belongs, IsFiled, cluster_members-IsFiled, contains-cluster_members, filed-NoRepeat,
}

module _ (g : Graph) where
  -- the loop over the cluster map busts a node if its entry is small
  abbrev busts : Option ℤ → List (ℤ × List ℕ) → ℕ → Bool
  busts env [] v = false
  busts env ((c, ns) ∷ m) v = (is_small env g ns && contains ns v) || busts env m v

  -- the types of the ops are those of `g`
  record SameTypes (h : Graph) : Type 0 where
    nodes : ids h ≡ ids g
    types : (v : ℕ) → Known g v → (node_at h v).type_string ≡ (node_at g v).type_string

  non_trivial_count-eq :
      (h : Graph) (ns : List ℕ)
      → SameTypes h
      → ((v : ℕ) → contains ns v ≡ true → Known g v)
      → non_trivial_count h ns ≡ non_trivial_count g ns
  unfolding non_trivial_count count contains
  non_trivial_count-eq h [] t k = refl
  non_trivial_count-eq h (v ∷ ns) t k = ground (
    arith,
    t.types v (k v (ground (arith, nat_beq_iff v v))),
    non_trivial_count-eq h ns t (λ w i. k w (ground arith)),
  )

  is_small-eq :
      (env : Option ℤ) (h : Graph) (ns : List ℕ)
      → SameTypes h
      → ((v : ℕ) → contains ns v ≡ true → Known g v)
      → is_small env h ns ≡ is_small env g ns
  unfolding is_small
  is_small-eq env h ns t k = rw (non_trivial_count-eq h ns t k) refl

  bust_clusters-Busted :
      (env : Option ℤ) (m : List (ℤ × List ℕ)) (d : Deassigned)
      → IsFiled g m
      → SameTypes d.graph
      → Busted (busts env m) d.graph (bust_clusters env m d).graph
  unfolding bust_clusters
  bust_clusters-Busted env [] d f t = Busted-none d.graph (λ v. false) (λ v. refl)
  bust_clusters-Busted env ((c, ns) ∷ m) d f t =
      let small = is_small env d.graph ns in
      let same = is_small-eq env d.graph ns t (λ v i. (f.2 v i).0) in
      let d' = if small then bust ns d else d in
      let one = bust_if-Busted small ns d in
      Busted-trans (λ v. small && contains ns v) (busts env m) (busts env ((c, ns) ∷ m)) d.graph
        d'.graph (bust_clusters env m d').graph (λ v. ground (arith, same)) one
        (bust_clusters-Busted env m d' f.3 (record {
          nodes = one.nodes ∙ t.nodes;
          types =
              λ v k. one.types v (subst (λ l. contains l v ≡ true) (sym t.nodes) k) ∙ t.types v k;
        }))

  -- no entry but that of its cluster busts a node
  busts-lookup :
      (env : Option ℤ) (m : List (ℤ × List ℕ)) (c : ℤ) (v : ℕ)
      → IsFiled g m
      → cluster_at g v ≡ some c
      → busts env m v
        ≡ (is_small env g (or_empty (lookup c m)) && contains (or_empty (lookup c m)) v)
  unfolding lookup contains
  busts-lookup env [] c v f e = ground arith
  busts-lookup env ((j, ns) ∷ m) c v f e =
      ground (arith, f.0, f.2 v, busts-lookup env m c v f.3 e, int_eq.beq_iff c j)

  no_cluster_kept :
      (env : Option ℤ) (m : List (ℤ × List ℕ)) (v : ℕ)
      → IsFiled g m
      → cluster_at g v ≡ none
      → busts env m v ≡ false
  no_cluster_kept env [] v f e = refl
  no_cluster_kept env ((j, ns) ∷ m) v f e = ground (arith, f.2 v, no_cluster_kept env m v f.3 e)

-- With the pass enabled, a node of a cluster stays in it, marked as it was, exactly if the members of
-- the cluster have at least the required number of ops whose type is not in `trivial_ops`; otherwise
-- the node loses its cluster and its mark. The members are all the nodes of the graph that carry the
-- id of the cluster, each counted once. A node without a cluster keeps its mark and has none.
pub deassign_clusters-kept :
    (env : Option ℤ) (g : Graph) (v : ℕ)
    → Known g v
    → ((c : ℤ)
        → cluster_at g v ≡ some c
        → (nodes : List ℕ) × NoRepeat nodes
          × ((w : ℕ) → contains nodes w ≡ (contains (ids g) w && belongs g c w))
          × (cluster_at (deassign_clusters false env g).graph v
              ≡ (if is_small env g nodes then none else some c))
          × (marked (deassign_clusters false env g).graph v
              ≡ (if is_small env g nodes then false else marked g v)))
      × (cluster_at g v ≡ none
          → (cluster_at (deassign_clusters false env g).graph v ≡ none)
            × (marked (deassign_clusters false env g).graph v ≡ marked g v))
unfolding deassign_clusters
deassign_clusters-kept env g v k =
    let m = cluster_members g (ids g) [] in
    let filed = cluster_members-IsFiled g (ids g) [] (λ w i. i) tt in
    let d : Deassigned = record {
      graph = g;
      num_nodes_marked_before_deassign = nodes_with_cluster g (ids g);
      deassigned_histogram = [];
    } in
    let done =
      bust_clusters-Busted g env m d filed (record { nodes = refl; types = λ w i. refl }) in
    (
      λ c e.
          let nodes = or_empty (lookup c m) in
          let members =
            λ (w : ℕ). contains-cluster_members g (ids g) [] c w ∙ unfold lookup contains in refl in
          let busted = busts-lookup g env m c v filed e in
          (
            nodes,
            filed-NoRepeat g m c filed,
            members,
            ground (arith, done.clusters v k, busted, members v, int_eq.beq_iff c c),
            ground (arith, done.marks v k, busted, members v, int_eq.beq_iff c c),
          ),
      λ e.
          let kept = no_cluster_kept g env m v filed e in
          (ground (arith, done.clusters v k), ground (arith, done.marks v k)),
    )
