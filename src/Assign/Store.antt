-- ===== src/Assign/Store.antt =====
-- What MergeClusters does to the cluster map: who owns a node afterwards, and what stands behind
-- each pointer.
use ngraph.Prelude.{
  ℕ, ◌≡◌, ◌≢◌, refl, ap, ◌∙◌, ◌||◌, List, [], ◌∷◌, arith, ◌==◌, nat_eq, nat_beq_iff, if◌then◌else◌,
  contains, Bool-cases, inl, inr, contains-insert, beq_refl,
}
use ngraph.Graph.{Edge}
use ngraph.Assign.Cluster.{
  Cluster, ClusterMap, cluster_of, get_merged_cluster_pred, merge_properties, absorb_node, absorb,
  merge_clusters,
}

owner-absorb_node :
    (src node : ℕ) (m : ClusterMap) (w : ℕ)
    → (absorb_node src node m).owner w ≡ (if w == node then m.owner src else m.owner w)
unfolding absorb_node
owner-absorb_node src node m w = refl

owner-absorb_node_src :
    (src node : ℕ) (m : ClusterMap) → (absorb_node src node m).owner src ≡ m.owner src
unfolding absorb_node
owner-absorb_node_src src node m = ground arith

pub owner-absorb :
    (src : ℕ) (nodes : List ℕ) (m : ClusterMap) (w : ℕ)
    → (absorb src nodes m).owner w ≡ (if contains nodes w then m.owner src else m.owner w)
unfolding absorb contains
owner-absorb src [] m w = refl
owner-absorb src (n ∷ ns) m w = ground (
  arith,
  owner-absorb src ns (absorb_node src n m) w,
  owner-absorb_node src n m w,
  owner-absorb_node_src src n m,
)

heap-absorb_node_ne :
    (src node : ℕ) (m : ClusterMap) (p : ℕ)
    → p ≢ m.owner src
    → (absorb_node src node m).heap p ≡ m.heap p
unfolding absorb_node
heap-absorb_node_ne src node m p h = ground (arith, nat_beq_iff p (m.owner src))

pub heap-absorb_ne :
    (src : ℕ) (nodes : List ℕ) (m : ClusterMap) (p : ℕ)
    → p ≢ m.owner src
    → (absorb src nodes m).heap p ≡ m.heap p
unfolding absorb
heap-absorb_ne src [] m p h = refl
heap-absorb_ne src (n ∷ ns) m p h =
    heap-absorb_ne src ns (absorb_node src n m) p (λ e. h (e ∙ owner-absorb_node_src src n m))
    ∙ heap-absorb_node_ne src n m p h

-- the cluster that absorbs keeps all but its nodes
pub record Absorbed (c c' : Cluster) (nodes : List ℕ) : Type 0 where
  pub index : c'.index ≡ c.index
  pub predicate : c'.predicate ≡ c.predicate
  pub members : (w : ℕ) → contains c'.nodes w ≡ (contains nodes w || contains c.nodes w)

absorb_node-Absorbed :
    (src node : ℕ) (m : ClusterMap)
    → Absorbed (cluster_of m src) ((absorb_node src node m).heap (m.owner src)) (node ∷ [])
unfolding absorb_node contains
absorb_node-Absorbed src node m = record {
  index = rw (beq_refl (m.owner src)) refl;
  predicate = rw (beq_refl (m.owner src)) refl;
  members = λ w.
      rw (beq_refl (m.owner src)) (ground (arith, contains-insert node w (cluster_of m src).nodes));
}

Absorbed-cons :
    {a b c : Cluster} {n : ℕ} {ns : List ℕ}
    → Absorbed a b (n ∷ [])
    → Absorbed b c ns
    → Absorbed a c (n ∷ ns)
unfolding contains
Absorbed-cons {a} {b} {c} {n} {ns} p q = record {
  index = q.index ∙ p.index;
  predicate = q.predicate ∙ p.predicate;
  members = λ w. ground (arith, p.members w, q.members w);
}

pub absorb-Absorbed :
    (src : ℕ) (nodes : List ℕ) (m : ClusterMap)
    → Absorbed (cluster_of m src) ((absorb src nodes m).heap (m.owner src)) nodes
unfolding absorb contains absorb_node
absorb-Absorbed src [] m = record { index = refl; predicate = refl; members = λ w. refl }
absorb-Absorbed src (n ∷ ns) m =
    Absorbed-cons (absorb_node-Absorbed src n m)
      (rw (owner-absorb_node_src src n m) at (absorb-Absorbed src ns (absorb_node src n m)))

absorb-Absorbed_at :
    (src p : ℕ) (nodes nodes' : List ℕ) (m : ClusterMap)
    → m.owner src ≡ p
    → nodes ≡ nodes'
    → Absorbed (m.heap p) ((absorb src nodes m).heap p) nodes'
absorb-Absorbed_at src p nodes nodes' m h k = rw (← h, ← k) (absorb-Absorbed src nodes m)

-- `merge_properties` writes the predicate and the outgoing edges of the source's cluster only.
properties-nodes :
    (e : Edge) (m : ClusterMap) (p : ℕ) → ((merge_properties e m).heap p).nodes ≡ (m.heap p).nodes
unfolding merge_properties
properties-nodes e m p = ground (arith, nat_beq_iff p (m.owner e.src))

properties-index :
    (e : Edge) (m : ClusterMap) (p : ℕ) → ((merge_properties e m).heap p).index ≡ (m.heap p).index
unfolding merge_properties
properties-index e m p = ground (arith, nat_beq_iff p (m.owner e.src))

properties-heap_ne :
    (e : Edge) (m : ClusterMap) (p : ℕ)
    → p ≢ m.owner e.src
    → (merge_properties e m).heap p ≡ m.heap p
unfolding merge_properties
properties-heap_ne e m p h = ground (arith, nat_beq_iff p (m.owner e.src))

properties-predicate :
    (e : Edge) (m : ClusterMap)
    → ((merge_properties e m).heap (m.owner e.src)).predicate
      ≡ get_merged_cluster_pred (cluster_of m e.src).predicate (cluster_of m e.dst).predicate
unfolding merge_properties
properties-predicate e m = rw (beq_refl (m.owner e.src)) refl

properties-owner : (e : Edge) (m : ClusterMap) (w : ℕ) → (merge_properties e m).owner w ≡ m.owner w
unfolding merge_properties
properties-owner e m w = refl

module _ (e : Edge) (m : ClusterMap) where
  pub owner-merge :
      (w : ℕ)
      → (merge_clusters e m).owner w
        ≡ (if contains (cluster_of m e.dst).nodes w then m.owner e.src else m.owner w)
  unfolding merge_clusters
  owner-merge w = simp (owner-absorb, properties-owner, properties-nodes)

  pub heap-merge_ne : (p : ℕ) → p ≢ m.owner e.src → (merge_clusters e m).heap p ≡ m.heap p
  unfolding merge_clusters
  heap-merge_ne p h =
      let m' = merge_properties e m in
      heap-absorb_ne e.src (cluster_of m' e.dst).nodes m' p (simp properties-owner h)
      ∙ properties-heap_ne e m p h

  merge-Absorbed :
      Absorbed
        ((merge_properties e m).heap (m.owner e.src))
        ((merge_clusters e m).heap (m.owner e.src))
        (cluster_of m e.dst).nodes
  unfolding merge_clusters
  merge-Absorbed =
      absorb-Absorbed_at e.src (m.owner e.src) (cluster_of (merge_properties e m) e.dst).nodes
        (cluster_of m e.dst).nodes (merge_properties e m) (properties-owner e m e.src)
        (simp (properties-owner, properties-nodes))

  pub predicate-merge :
      ((merge_clusters e m).heap (m.owner e.src)).predicate
      ≡ get_merged_cluster_pred (cluster_of m e.src).predicate (cluster_of m e.dst).predicate
  predicate-merge = merge-Absorbed.predicate ∙ properties-predicate e m

  pub members-merge :
      (w : ℕ)
      → contains ((merge_clusters e m).heap (m.owner e.src)).nodes w
        ≡ (contains (cluster_of m e.dst).nodes w || contains (cluster_of m e.src).nodes w)
  members-merge w = rw (← properties-nodes e m (m.owner e.src)) (merge-Absorbed.members w)

  pub index-merge : (p : ℕ) → ((merge_clusters e m).heap p).index ≡ (m.heap p).index
  index-merge p = elim (Bool-cases (p == m.owner e.src)) [
    | inl h ↦
        let q = (nat_beq_iff p (m.owner e.src)).0 h in
        rw q (merge-Absorbed.index ∙ properties-index e m (m.owner e.src))
    | inr h ↦
        ap (λ (c : Cluster). c.index)
          (heap-merge_ne p (ground (arith, nat_beq_iff p (m.owner e.src))))
  ]
