-- ===== src/Assign/Ends.antt =====
-- AssignClusters of ngraph_bridge/assign_clusters.cc returns: one round for each node is enough.
use ngraph.Prelude.{
  ℕ, ◌+◌, ◌≤◌, String, ◌≢◌, false, List, [], ◌∷◌, arith, map, ◌==◌, nat_eq, inl, inr, none, some,
  count, length,
}
use ngraph.Prelude.Status.{Status, ok, >>=-eq-ok, Status-cases}
use ngraph.Graph.{Node, Graph, ids}
use ngraph.GraphCycles.{GraphCycles, IsLawful}
use ngraph.ClusterManager.{ClusterManager}
use ngraph.Assign.Cluster.{ClusterMap}
use ngraph.Assign.Setup.{setup}
use ngraph.Assign.Contract.{contract_loop}
use ngraph.Assign.Invariant.{EndsKnown}
use ngraph.Assign.Terminates.{roots, contract_loop-ne-none}
use ngraph.Assign.Contracted.{begin, setup-IsReady}
use ngraph.Assign.Tag.{tag_clusters, assign_clusters}

count-map-le :
    (m : ClusterMap) (ns : List Node) → count (λ v. m.owner v == v) (map (λ n. n.id) ns) ≤ length ns
unfolding count
count-map-le m [] = omega arith
count-map-le m (n ∷ ns) = ground (arith, count-map-le m ns)

roots-le-length : (g : Graph) (m : ClusterMap) → roots g m ≤ length g.nodes
unfolding roots
roots-le-length g m = count-map-le m g.nodes

-- When the cycle detector has its laws and both ends of each edge are nodes of the graph, the pass
-- never gives up on its contraction loop: it returns an error or a tagged graph.
pub assign_clusters-ne-none :
    (gc : GraphCycles) (laws : IsLawful gc) (deadness : Graph → Status (ℕ → Status String))
    (g : Graph) (ends : EndsKnown g) (manager : ClusterManager)
    → assign_clusters gc deadness g manager ≢ ok none
unfolding assign_clusters
assign_clusters-ne-none gc laws deadness g ends manager h =
    let (get, analysed, h1) = >>=-eq-ok (deadness g) _ h in
    let (s, ready, h2) = >>=-eq-ok (setup gc g get) _ h1 in
    let sound = (setup-IsReady gc laws g ends get s ready).sound in
    let fuel = length g.nodes + 1 in
    let ends' =
      contract_loop-ne-none gc laws g ends false fuel false (begin s) sound
        (omega (arith, roots-le-length g s.clusters)) in
    elim (Status-cases (contract_loop gc g false fuel false (begin s))) [
      | inr (code, bad) ↦ absurd (ground arith)
      | inl (none, ended) ↦ ends' ended
      | inl (some t, ended) ↦
          let (tagged, _, last) =
            >>=-eq-ok
              (tag_clusters s.predicates t.clusters (ids g)
                (record { graph = g; manager = manager; seen = [] }))
              (λ r. ok (some r)) {b = none} (ground arith) in
          absurd (cc)
    ]
