-- ===== src/Assign/Made.antt =====
-- After the first loop of AssignClusters every node of the graph has a cluster of its own.
use ngraph.Prelude.{
  ℕ, String, ◌≡◌, ap, sym, ◌∙◌, true, List, [], ◌∷◌, ◌++◌, contains-append, map, arith, ◌==◌,
  nat_eq, nat_beq_iff, some, contains, subst,
}
use ngraph.Prelude.Status.{Status, ok, >>=-eq-ok}
use ngraph.Graph.{Node, Graph, ids}
use ngraph.GraphCycles.{GraphCycles, IsLawful}
use ngraph.Assign.Cluster.{Cluster, cluster_of, index_of}
use ngraph.Assign.Setup.{Start, make_cluster, make_clusters}
use ngraph.Assign.Invariant.{IsSound}

pub record IsMade (gc : GraphCycles) (done : List ℕ) (s : Start gc.State) : Type 0 where
  pub own : (v : ℕ) → contains done v ≡ true → s.clusters.owner v ≡ v
  pub nodes : (v w : ℕ) → contains done v ≡ true → contains (s.clusters.heap v).nodes w ≡ (w == v)
  pub live : (v : ℕ) → contains done v ≡ true → gc.alive s.cycles (s.clusters.heap v).index ≡ true
  pub distinct :
      (v w : ℕ)
      → contains done v ≡ true
      → contains done w ≡ true
      → (s.clusters.heap v).index ≡ (s.clusters.heap w).index
      → v ≡ w
  pub predicate :
      (v : ℕ) → contains done v ≡ true → s.predicates v ≡ some (s.clusters.heap v).predicate

module _ (gc : GraphCycles) (laws : IsLawful gc) (g : Graph) (get : ℕ → Status String) (n : Node)
    (done : List ℕ) (s t : Start gc.State) (before : IsMade gc done s)
    (made : make_cluster gc g get n s ≡ ok t) where
  made_own : (v : ℕ) → contains (n.id ∷ done) v ≡ true → t.clusters.owner v ≡ v
  unfolding make_cluster contains
  made_own v k = ground (arith, before.own v, nat_beq_iff v n.id, made)

  made_nodes :
      (v w : ℕ) → contains (n.id ∷ done) v ≡ true → contains (t.clusters.heap v).nodes w ≡ (w == v)
  unfolding make_cluster contains
  made_nodes v w k = ground (arith, before.nodes v w, nat_beq_iff v n.id, made)

  made_live :
      (v : ℕ) → contains (n.id ∷ done) v ≡ true → gc.alive t.cycles (t.clusters.heap v).index ≡ true
  unfolding make_cluster contains
  made_live v k = ground (
    arith,
    before.live v,
    nat_beq_iff v n.id,
    made,
    laws.new_node_fresh s.cycles,
    laws.new_node_alive s.cycles (s.clusters.heap v).index,
    laws.new_node_alive s.cycles (gc.new_node s.cycles).0,
    nat_beq_iff (s.clusters.heap v).index (gc.new_node s.cycles).0,
    nat_beq_iff (gc.new_node s.cycles).0 (gc.new_node s.cycles).0,
  )

  made_distinct :
      (v w : ℕ)
      → contains (n.id ∷ done) v ≡ true
      → contains (n.id ∷ done) w ≡ true
      → (t.clusters.heap v).index ≡ (t.clusters.heap w).index
      → v ≡ w
  unfolding make_cluster contains
  made_distinct v w k l h = ground (
    arith,
    before.distinct v w,
    before.live v,
    before.live w,
    nat_beq_iff v n.id,
    nat_beq_iff w n.id,
    made,
    laws.new_node_fresh s.cycles,
  )

  made_predicate :
      (v : ℕ)
      → contains (n.id ∷ done) v ≡ true
      → t.predicates v ≡ some (t.clusters.heap v).predicate
  unfolding make_cluster contains
  made_predicate v k = ground (arith, before.predicate v, nat_beq_iff v n.id, made)

  make_cluster-IsMade : IsMade gc (n.id ∷ done) t
  make_cluster-IsMade = record {
    own = made_own;
    nodes = made_nodes;
    live = made_live;
    distinct = made_distinct;
    predicate = made_predicate;
  }

IsMade-weaken :
    (gc : GraphCycles) (a b : List ℕ) (s : Start gc.State)
    → ((v : ℕ) → contains a v ≡ true → contains b v ≡ true)
    → IsMade gc b s
    → IsMade gc a s
IsMade-weaken gc a b s h m = record {
  own = λ v k. m.own v (h v k);
  nodes = λ v w k. m.nodes v w (h v k);
  live = λ v k. m.live v (h v k);
  distinct = λ v w k l. m.distinct v w (h v k) (h w l);
  predicate = λ v k. m.predicate v (h v k);
}

module _ (gc : GraphCycles) (laws : IsLawful gc) (g : Graph) (get : ℕ → Status String) where
  make_clusters-IsMade :
      (ns : List Node) (done : List ℕ) (s t : Start gc.State)
      → IsMade gc done s
      → make_clusters gc g get ns s ≡ ok t
      → IsMade gc (map (λ n. n.id) ns ++ done) t
  unfolding make_clusters
  make_clusters-IsMade [] done s t m h = subst (IsMade gc done) (cc) m
  make_clusters-IsMade (n ∷ ns) done s t m h =
      let (s', first, rest) = >>=-eq-ok (make_cluster gc g get n s) (make_clusters gc g get ns) h in
      let m' =
        make_clusters-IsMade ns (n.id ∷ done) s' t
          (make_cluster-IsMade gc laws g get n done s s' m first) rest in
      IsMade-weaken gc (n.id ∷ (map (λ n. n.id) ns ++ done)) (map (λ n. n.id) ns ++ n.id ∷ done) t
        (λ v.
          unfold contains in
          ground (
            arith,
            contains-append (map (λ (n : Node). n.id) ns) (n.id ∷ done) v,
            contains-append (map (λ (n : Node). n.id) ns) done v,
          ))
        m'

  pub make_clusters_all :
      (s t : Start gc.State) → make_clusters gc g get g.nodes s ≡ ok t → IsMade gc (ids g) t
  make_clusters_all s t h =
      IsMade-weaken gc (ids g) (ids g ++ []) t (λ v k. ground (arith, contains-append (ids g) [] v))
        (make_clusters-IsMade g.nodes [] s t nothing h)
    where
      empty : (v : ℕ) → contains [] v ≡ true → ⊥
      empty v k = unfold contains in cc

      nothing : IsMade gc [] s
      nothing = record {
        own = λ v k. absurd (empty v k);
        nodes = λ v w k. absurd (empty v k);
        live = λ v k. absurd (empty v k);
        distinct = λ v w k l. absurd (empty v k);
        predicate = λ v k. absurd (empty v k);
      }

module _ (gc : GraphCycles) (g : Graph) (s : Start gc.State) (m : IsMade gc (ids g) s) where
  pub own_cluster :
      (v : ℕ) → contains (ids g) v ≡ true → cluster_of s.clusters v ≡ s.clusters.heap v
  own_cluster v k = ap s.clusters.heap (m.own v k)

  own_index :
      (v : ℕ) → contains (ids g) v ≡ true → index_of s.clusters v ≡ (s.clusters.heap v).index
  own_index v k = ap (λ (c : Cluster). c.index) (own_cluster v k)

  own_members :
      (v w : ℕ) → contains (ids g) v ≡ true → contains (cluster_of s.clusters v).nodes w ≡ (w == v)
  own_members v w k = ap (λ (c : Cluster). contains c.nodes w) (own_cluster v k) ∙ m.nodes v w k

  -- each cluster holds its own node only
  pub IsMade-IsSound : IsSound gc g s.cycles s.clusters
  IsMade-IsSound = record {
    members = λ v w k. ground (arith, own_members v w k, m.own v k, m.own w, nat_beq_iff w v);
    root = λ v k. ground (arith, m.own v k, k);
    live = λ v k. ap (gc.alive s.cycles) (own_index v k) ∙ m.live v k;
    distinct = λ v w k l h.
        m.own v k ∙ m.distinct v w k l (sym (own_index v k) ∙ h ∙ own_index w l) ∙ sym (m.own w l);
  }
