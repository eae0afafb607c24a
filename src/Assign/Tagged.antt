-- ===== src/Assign/Tagged.antt =====
-- What the tagging loop writes on the nodes of one cluster.
use ngraph.Prelude.{
  ℕ, String, ◌≡◌, refl, ap₂, sym, ◌∙◌, subst, true, Option, some, List, [], ◌∷◌, map, ◌==◌, nat_eq,
  nat_beq_iff, if◌then◌else◌, contains, arith, string_eq, lookup-assign,
}
use ngraph.Prelude.Int.{ℤ, pos}
use ngraph.Prelude.Status.{ok}
use ngraph.Graph.{Node, Graph, ids, int, add_attr, node_at, find_node, update_node}
use ngraph.Mark.Access.{node_is_marked_for_clustering}
use ngraph.Assign.Cluster.{ClusterMap}
use ngraph.Assign.Invariant.{Known}
use ngraph.Assign.Moves.{marked}
use ngraph.Assign.Tag.{tag_nodes, get_node_cluster}

module _ (w : ℕ) (f : Node → Node) (same_id : (n : Node) → (f n).id ≡ n.id) where
  abbrev change : Node → Node
  change n = if n.id == w then f n else n

  change-id : (n : Node) → (change n).id ≡ n.id
  change-id n = ground (arith, same_id n)

  find_node-map :
      (ns : List Node) (v : ℕ)
      → contains (map (λ n. n.id) ns) v ≡ true
      → find_node (map change ns) v ≡ (if v == w then f (find_node ns v) else find_node ns v)
  unfolding find_node contains
  find_node-map [] v k = cc
  find_node-map (n ∷ ns) v k = ground (
    arith,
    change-id n,
    find_node-map ns v,
    nat_beq_iff n.id w,
    nat_beq_iff v w,
    nat_beq_iff n.id v,
    nat_beq_iff v n.id,
    nat_beq_iff (change n).id v,
  )

  ids-map : (ns : List Node) → map (λ n. n.id) (map change ns) ≡ map (λ n. n.id) ns
  ids-map [] = refl
  ids-map (n ∷ ns) = ap₂ ◌∷◌ (change-id n) (ids-map ns)

  pub node_at-update :
      (g : Graph) (v : ℕ)
      → Known g v
      → node_at (update_node g w f) v ≡ (if v == w then f (node_at g v) else node_at g v)
  unfolding node_at update_node
  node_at-update g v k = find_node-map g.nodes v k

  pub ids-update : (g : Graph) → ids (update_node g w f) ≡ ids g
  unfolding update_node
  ids-update g = ids-map g.nodes

-- the cluster id on a node
abbrev pub cluster_at : Graph → ℕ → Option ℤ
cluster_at g v = get_node_cluster (node_at g v)

tag_attr :
    (n : Node) (i : ℕ)
    → get_node_cluster (add_attr n "_ngraph_cluster" (int (pos i))) ≡ some (pos i)
unfolding get_node_cluster add_attr
tag_attr n i =
    ground (arith, lookup-assign "_ngraph_cluster" "_ngraph_cluster" (int (pos i)) n.attrs)

tag_mark :
    (n : Node) (i : ℕ)
    → node_is_marked_for_clustering (add_attr n "_ngraph_cluster" (int (pos i)))
      ≡ node_is_marked_for_clustering n
unfolding node_is_marked_for_clustering add_attr
tag_mark n i =
    ground
      (arith, lookup-assign "_ngraph_cluster" "_ngraph_marked_for_clustering" (int (pos i)) n.attrs)

tag_id : (i : ℕ) (n : Node) → (add_attr n "_ngraph_cluster" (int (pos i))).id ≡ n.id
unfolding add_attr
tag_id i n = refl

pub record TagsWritten (i : ℕ) (vs : List ℕ) (g h : Graph) : Type 0 where
  pub nodes : ids h ≡ ids g
  pub marks : (v : ℕ) → Known g v → marked h v ≡ marked g v
  pub clusters :
      (v : ℕ)
      → Known g v
      → cluster_at h v ≡ (if contains vs v then some (pos i) else cluster_at g v)

module _ (predicates : ℕ → Option String) (m : ClusterMap) (i : ℕ) where
  abbrev tag : Graph → ℕ → Graph
  tag g w = update_node g w (λ n. add_attr n "_ngraph_cluster" (int (pos i)))

  tag-TagsWritten : (g : Graph) (w : ℕ) → TagsWritten i (w ∷ []) g (tag g w)
  unfolding contains
  tag-TagsWritten g w = record {
    nodes = ids-update w (λ n. add_attr n "_ngraph_cluster" (int (pos i))) (tag_id i) g;
    marks = λ v k. ground (
      arith,
      node_at-update w (λ n. add_attr n "_ngraph_cluster" (int (pos i))) (tag_id i) g v k,
      tag_mark (node_at g v) i,
    );
    clusters = λ v k. ground (
      arith,
      node_at-update w (λ n. add_attr n "_ngraph_cluster" (int (pos i))) (tag_id i) g v k,
      tag_attr (node_at g v) i,
    );
  }

  TagsWritten-cons :
      (w : ℕ) (vs : List ℕ) (g h k : Graph)
      → TagsWritten i (w ∷ []) g h
      → TagsWritten i vs h k
      → TagsWritten i (w ∷ vs) g k
  unfolding contains
  TagsWritten-cons w vs g h k p q = record {
    nodes = q.nodes ∙ p.nodes;
    marks = λ v a. q.marks v (subst (λ l. contains l v ≡ true) (sym p.nodes) a) ∙ p.marks v a;
    clusters = λ v a.
        ground
          (arith, q.clusters v (subst (λ l. contains l v ≡ true) (sym p.nodes) a), p.clusters v a);
  }

  pub tag_nodes-TagsWritten :
      (vs : List ℕ) (g h : Graph) → tag_nodes predicates m i vs g ≡ ok h → TagsWritten i vs g h
  unfolding tag_nodes contains
  tag_nodes-TagsWritten [] g h e =
      subst (TagsWritten i [] g) (cc)
        (record { nodes = refl; marks = λ v k. refl; clusters = λ v k. refl })
  tag_nodes-TagsWritten (v ∷ vs) g h e =
      TagsWritten-cons v vs g (tag g v) h (tag-TagsWritten g v)
        (tag_nodes-TagsWritten vs (tag g v) h (ground arith))
