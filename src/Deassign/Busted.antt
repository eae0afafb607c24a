-- ===== src/Deassign/Busted.antt =====
-- What clearing the attributes of some nodes does to a graph.
use ngraph.Prelude.{
  ℕ, ◌≡◌, refl, sym, ◌∙◌, subst, Bool, true, false, ◌&&◌, ◌||◌, none, List, [], ◌∷◌, ◌==◌, nat_eq,
  string_eq, if◌then◌else◌, contains, lookup-remove, remove, arith,
}
use ngraph.Prelude.Int.{int_eq}
use ngraph.Graph.{Node, Graph, ids, clear_attr, get_int, get_flag, node_at, update_node}
use ngraph.Mark.Access.{node_is_marked_for_clustering}
use ngraph.Assign.Invariant.{Known}
use ngraph.Assign.Moves.{marked}
use ngraph.Assign.Tag.{get_node_cluster}
use ngraph.Assign.Tagged.{cluster_at, node_at-update, ids-update}
use ngraph.Deassign.{Deassigned, bust_node, bust}

bust_node-id : (n : Node) → (bust_node n).id ≡ n.id
unfolding bust_node clear_attr
bust_node-id n = refl

bust_node-type : (n : Node) → (bust_node n).type_string ≡ n.type_string
unfolding bust_node clear_attr
bust_node-type n = refl

bust_node-cluster : (n : Node) → get_node_cluster (bust_node n) ≡ none
unfolding bust_node clear_attr get_node_cluster get_int
bust_node-cluster n = ground (
  arith,
  lookup-remove "_ngraph_marked_for_clustering" "_ngraph_cluster"
      (remove "_ngraph_cluster" n.attrs),
  lookup-remove "_ngraph_cluster" "_ngraph_cluster" n.attrs,
)

bust_node-marked : (n : Node) → node_is_marked_for_clustering (bust_node n) ≡ false
unfolding bust_node clear_attr node_is_marked_for_clustering get_flag
bust_node-marked n = ground (
  arith,
  lookup-remove "_ngraph_marked_for_clustering" "_ngraph_marked_for_clustering"
      (remove "_ngraph_cluster" n.attrs),
)

-- what busting some nodes does to a graph
pub record Busted (b : ℕ → Bool) (g h : Graph) : Type 0 where
  pub nodes : ids h ≡ ids g
  pub types : (v : ℕ) → Known g v → (node_at h v).type_string ≡ (node_at g v).type_string
  pub clusters : (v : ℕ) → Known g v → cluster_at h v ≡ (if b v then none else cluster_at g v)
  pub marks : (v : ℕ) → Known g v → marked h v ≡ (if b v then false else marked g v)

pub Busted-none : (g : Graph) (b : ℕ → Bool) → ((v : ℕ) → b v ≡ false) → Busted b g g
Busted-none g b h = record {
  nodes = refl;
  types = λ v k. refl;
  clusters = λ v k. ground (arith, h v);
  marks = λ v k. ground (arith, h v);
}

pub Busted-trans :
    (a b c : ℕ → Bool) (g h k : Graph)
    → ((v : ℕ) → c v ≡ (a v || b v))
    → Busted a g h
    → Busted b h k
    → Busted c g k
Busted-trans a b c g h k e p q = record {
  nodes = q.nodes ∙ p.nodes;
  types = λ v n. q.types v (known v n) ∙ p.types v n;
  clusters = λ v n. ground (arith, e v, q.clusters v (known v n), p.clusters v n);
  marks = λ v n. ground (arith, e v, q.marks v (known v n), p.marks v n);
}
  where
    known : (v : ℕ) → Known g v → Known h v
    known v n = subst (λ l. contains l v ≡ true) (sym p.nodes) n

bust_one-Busted : (g : Graph) (w : ℕ) → Busted (λ v. v == w) g (update_node g w bust_node)
bust_one-Busted g w = record {
  nodes = ids-update w bust_node bust_node-id g;
  types = λ v k. ground (arith, there v k, bust_node-type (node_at g v));
  clusters = λ v k. ground (arith, there v k, bust_node-cluster (node_at g v));
  marks = λ v k. ground (arith, there v k, bust_node-marked (node_at g v));
}
  where
    there :
        (v : ℕ) (k : Known g v)
        → node_at (update_node g w bust_node) v
          ≡ (if v == w then bust_node (node_at g v) else node_at g v)
    there v k = node_at-update w bust_node bust_node-id g v k

bust-Busted : (vs : List ℕ) (d : Deassigned) → Busted (contains vs) d.graph (bust vs d).graph
unfolding bust contains
bust-Busted [] d = Busted-none d.graph (λ v. false) (λ v. refl)
bust-Busted (w ∷ vs) d =
    Busted-trans (λ v. v == w) (contains vs) (contains (w ∷ vs)) d.graph
      (update_node d.graph w bust_node) (bust (w ∷ vs) d).graph (λ v. refl)
      (bust_one-Busted d.graph w) (bust-Busted vs _)

pub bust_if-Busted :
    (b : Bool) (ns : List ℕ) (d : Deassigned)
    → Busted (λ v. b && contains ns v) d.graph (if b then bust ns d else d).graph
bust_if-Busted true ns d = bust-Busted ns d
bust_if-Busted false ns d = Busted-none d.graph (λ v. false) (λ v. refl)
