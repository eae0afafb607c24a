-- ===== src/Assign/Predicates.antt =====
-- The deadness predicate of a node against that of the cluster that it is put in.
use ngraph.Prelude.{
  ℕ, String, ◌≡◌, true, arith, ◌==◌, nat_eq, nat_beq_iff, string_eq, if◌then◌else◌, In, ◌⊎◌, ◌||◌,
}
use ngraph.Prelude.Status.{ok}
use ngraph.Graph.{Edge, Graph}
use ngraph.GraphCycles.{GraphCycles, IsLawful}
use ngraph.Assign.Cluster.{
  ClusterMap, cluster_of, is_true_pred_string, get_merged_cluster_pred, merge_clusters,
}
use ngraph.Assign.Deadness.{can_contract_edge_deadness_check}
use ngraph.Assign.Store.{predicate-merge, heap-merge_ne}
use ngraph.Assign.Invariant.{Known, EndsKnown, IsSound, owner-merge_of_member}
use ngraph.Assign.Moves.{Moves, start, refused, merged, joined}
use ngraph.Assign.Convex.{Moves-IsSound}

-- An accepted edge has a source of the true predicate, or two equal predicates.
pub deadness_check_accepts :
    (g : Graph) (m : ClusterMap) (e : Edge)
    → can_contract_edge_deadness_check g m e ≡ ok true
    → (is_true_pred_string (cluster_of m e.src).predicate ≡ true)
      ⊎ ((cluster_of m e.src).predicate ≡ (cluster_of m e.dst).predicate)
unfolding can_contract_edge_deadness_check
deadness_check_accepts g m e h =
    ground (arith, string_eq.beq_iff (cluster_of m e.src).predicate (cluster_of m e.dst).predicate)

-- a node's own predicate is the true one or that of its cluster
abbrev pub Fits : String → String → Type 0
Fits own of_cluster = (is_true_pred_string own ≡ true) ⊎ (own ≡ of_cluster)

abbrev pub ArePredicated : Graph → (ℕ → String) → ClusterMap → Type 0
ArePredicated g own m = (v : ℕ) → Known g v → Fits (own v) (cluster_of m v).predicate

Fits-merged_src :
    (p s d : String)
    → (is_true_pred_string s ≡ true) ⊎ (s ≡ d)
    → Fits p s
    → Fits p (get_merged_cluster_pred s d)
unfolding get_merged_cluster_pred
Fits-merged_src p s d h k = ground (arith, string_eq.beq_iff s "#true", string_eq.beq_iff p "#true")

Fits-merged_dst :
    (p s d : String)
    → (is_true_pred_string s ≡ true) ⊎ (s ≡ d)
    → Fits p d
    → Fits p (get_merged_cluster_pred s d)
unfolding get_merged_cluster_pred
Fits-merged_dst p s d h k = ground arith

module _ (gc : GraphCycles) (laws : IsLawful gc) (g : Graph) (ends : EndsKnown g)
    (own : ℕ → String) where
  predicate-merge_of_member :
      (c : gc.State) (m : ClusterMap) (s : IsSound gc g c m) (e : Edge) (i : In e g.edges)
      (j : joined gc c m e ≡ true) (v : ℕ)
      → Known g v
      → (cluster_of (merge_clusters e m) v).predicate ≡ (
          if m.owner v == m.owner e.dst || m.owner v == m.owner e.src
          then get_merged_cluster_pred (cluster_of m e.src).predicate (cluster_of m e.dst).predicate
          else (cluster_of m v).predicate)
  predicate-merge_of_member c m s e i j v k = ground (
    arith,
    owner-merge_of_member gc laws g c m s e (ends e i) j v k,
    predicate-merge e m,
    heap-merge_ne e m (m.owner v),
    nat_beq_iff (m.owner v) (m.owner e.dst),
    nat_beq_iff (m.owner v) (m.owner e.src),
  )

  predicated-merge :
      (c : gc.State) (m : ClusterMap) (s : IsSound gc g c m) (e : Edge) (i : In e g.edges)
      (j : joined gc c m e ≡ true)
      → can_contract_edge_deadness_check g m e ≡ ok true
      → ArePredicated g own m
      → ArePredicated g own (merge_clusters e m)
  predicated-merge c m s e i j accepted h v k =
      let src = (cluster_of m e.src).predicate in
      let dst = (cluster_of m e.dst).predicate in
      let equal = deadness_check_accepts g m e accepted in
      ground (
        arith,
        predicate-merge_of_member c m s e i j v k,
        h v k,
        Fits-merged_src (own v) src dst equal,
        Fits-merged_dst (own v) src dst equal,
        nat_beq_iff (m.owner v) (m.owner e.dst),
        nat_beq_iff (m.owner v) (m.owner e.src),
      )

  pub Moves-ArePredicated :
      {c : gc.State} {m : ClusterMap} {c' : gc.State} {m' : ClusterMap}
      → Moves gc g c m c' m'
      → IsSound gc g c m
      → ArePredicated g own m
      → ArePredicated g own m'
  Moves-ArePredicated start s h = h
  Moves-ArePredicated (refused r e j no') s h = Moves-ArePredicated r s h
  Moves-ArePredicated (merged {c' = d} {m' = n} r e i el j done) s h =
      predicated-merge d n (Moves-IsSound gc laws g ends r s) e i j el.deadness_ok
        (Moves-ArePredicated r s h)
