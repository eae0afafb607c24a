-- ===== src/ClusterManager/Laws.antt =====
-- A table that only grows: what a new cluster adds, and what it leaves.
use ngraph.Prelude.{
  ℕ, ◌≡◌, refl, none, some, List, [], ◌∷◌, length, get_elem?, get_elem?-concat, ◌==◌, nat_eq,
  if◌then◌else◌,
}
use ngraph.ClusterManager.{ClusterManager, new_cluster, get_cluster_graph}

-- After NewCluster, GetClusterGraph finds an empty graph at the returned index, which is none of
-- the indices in use before, and what it found at every other index.
pub get-new_cluster :
    (m : ClusterManager) (i : ℕ)
    → (get_cluster_graph (new_cluster m).1 i
        ≡ (if i == (new_cluster m).0 then some [] else get_cluster_graph m i))
      × (get_cluster_graph m (new_cluster m).0 ≡ none)
unfolding new_cluster get_cluster_graph
get-new_cluster m i = (get_elem?-concat m.cluster_graphs [] i, out m.cluster_graphs)
  where
    out : {A : Type 0} (xs : List A) → get_elem? xs (length xs) ≡ none
    out [] = refl
    out (x ∷ xs) = out xs
