-- ===== src/Deassign.antt =====
-- The deassignment pass, DeassignClusters of ngraph_bridge/deassign_clusters.cc, without the log that
-- MaybeLogPlacement prints. Its two variables are what it leaves for the statistics.
pub mod Busted
pub mod Filed
pub mod Kept
use ngraph.Prelude.{
  ℕ, suc, String, Bool, true, false, not, Option, none, some, List, [], ◌∷◌, ◌==◌, nat_eq,
  string_eq, if◌then◌else◌, contains, insert, count, lookup, assign,
}
use ngraph.Prelude.Int.{ℤ, pos, ltb_ℤ, int_eq}
use ngraph.Graph.{Node, Graph, ids, clear_attr, node_at, update_node}
use ngraph.Assign.Tag.{get_node_cluster}

pub record Deassigned : Type 0 where
  pub graph : Graph
  pub num_nodes_marked_before_deassign : ℕ
  pub deassigned_histogram : List (String × ℕ)

abbrev pub or_empty : Option (List ℕ) → List ℕ
or_empty none = []
or_empty (some nodes) = nodes

-- `cluster_map[cluster_idx].insert(node)` for each node that has a cluster
unfoldable pub cluster_members : Graph → List ℕ → List (ℤ × List ℕ) → List (ℤ × List ℕ)
unfolding node_at get_node_cluster insert lookup assign
cluster_members g [] m = m
cluster_members g (v ∷ vs) m = elim (get_node_cluster (node_at g v)) [
  | none ↦ cluster_members g vs m
  | some c ↦ cluster_members g vs (assign c (insert v (or_empty (lookup c m))) m)
]

unfoldable pub nodes_with_cluster : Graph → List ℕ → ℕ
unfolding count node_at get_node_cluster
nodes_with_cluster g vs =
    count (λ v. elim (get_node_cluster (node_at g v)) [ none ↦ false | some c ↦ true ]) vs

-- `trivial_ops`, with the second name as the code spells it
abbrev pub trivial_ops : List String
trivial_ops = "Const" ∷ "Identitiy" ∷ []

unfoldable pub non_trivial_count : Graph → List ℕ → ℕ
unfolding count contains node_at
non_trivial_count g nodes = count (λ v. not (contains trivial_ops (node_at g v).type_string)) nodes

-- the value of NGRAPH_TF_MIN_NONTRIVIAL_NODES as an integer, if it is set
abbrev pub min_non_trivial_nodes : Option ℤ → ℤ
min_non_trivial_nodes none = pos 6
min_non_trivial_nodes (some n) = n

unfoldable pub bust_node : Node → Node
unfolding clear_attr
bust_node n = clear_attr (clear_attr n "_ngraph_cluster") "_ngraph_marked_for_clustering"

-- a missing entry of a map to `int` reads as 0
abbrev or_zero : Option ℕ → ℕ
or_zero none = 0
or_zero (some n) = n

unfoldable pub bust : List ℕ → Deassigned → Deassigned
unfolding update_node bust_node node_at lookup assign
bust [] d = d
bust (v ∷ vs) d =
    let kind = (node_at d.graph v).type_string in
    let seen = or_zero (lookup kind d.deassigned_histogram) in
    bust vs (record d {
      graph = update_node d.graph v bust_node;
      deassigned_histogram = assign kind (suc seen) d.deassigned_histogram;
    })

unfoldable pub is_small : Option ℤ → Graph → List ℕ → Bool
unfolding non_trivial_count
is_small env g nodes = ltb_ℤ (pos (non_trivial_count g nodes)) (min_non_trivial_nodes env)

-- the loop over the cluster map
unfoldable pub bust_clusters : Option ℤ → List (ℤ × List ℕ) → Deassigned → Deassigned
unfolding is_small bust
bust_clusters env [] d = d
bust_clusters env ((c, nodes) ∷ rest) d =
    bust_clusters env rest (if is_small env d.graph nodes then bust nodes d else d)

-- `disabled`: NGRAPH_TF_DISABLE_DEASSIGN_CLUSTERS is set
unfoldable pub deassign_clusters : Bool → Option ℤ → Graph → Deassigned
unfolding nodes_with_cluster cluster_members bust_clusters
deassign_clusters disabled env g =
    let d : Deassigned = record {
      graph = g;
      num_nodes_marked_before_deassign = nodes_with_cluster g (ids g);
      deassigned_histogram = [];
    } in
    if disabled then d else bust_clusters env (cluster_members g (ids g) []) d
