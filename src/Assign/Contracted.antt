-- ===== src/Assign/Contracted.antt =====
-- AssignClusters of ngraph_bridge/assign_clusters.cc up to the tagging: `setup`, then the
-- contraction loop to its end, with what holds of the clusters that it leaves.
use ngraph.Prelude.{
  ℕ, String, ◌≡◌, ◌≢◌, refl, ap, sym, ◌∙◌, subst, Bool, false, [], inr, In, none, some, string_eq,
}
use ngraph.Prelude.Status.{Status, ok, >>=-eq-ok}
use ngraph.Graph.{Node, Edge, Graph}
use ngraph.GraphCycles.{GraphCycles, IsLawful}
use ngraph.Assign.Cluster.{cluster_of}
use ngraph.Assign.Setup.{Start, no_clusters, make_clusters, insert_flow_edges, shadow_nodes, setup}
use ngraph.Assign.Contract.{Search, contract_loop}
use ngraph.Assign.Invariant.{Known, EndsKnown, IsSound}
use ngraph.Assign.Made.{make_clusters_all, own_cluster, IsMade-IsSound}
use ngraph.Assign.Extends.{IsSound-Extends, insert_flow_edges-AllInserted}
use ngraph.Assign.Shadows.{IsStaticEdge, shadow_nodes-Extends}
use ngraph.Assign.Moves.{Moves, start, contract_loop-Moves}
use ngraph.Assign.Convex.{Flow, IsTraced, Moves-IsSound, Moves-IsTraced, owner-between}
use ngraph.Assign.StaticInputs.{IsApart, Moves-IsApart, IsApart-owners}
use ngraph.Assign.Predicates.{Fits, Moves-ArePredicated}

-- the search before its first round
abbrev pub begin : {C : Type 0} → Start C → Search C
begin s = record { cycles = s.cycles; clusters = s.clusters; reasons = []; changed = false }

pub record IsReady (gc : GraphCycles) (g : Graph) (s : Start gc.State) : Type 0 where
  pub sound : IsSound gc g s.cycles s.clusters
  pub traced : IsTraced gc g s.cycles s.clusters
  pub apart :
      (n : Node)
      → In n g.nodes
      → (e : Edge) → IsStaticEdge g n e
      → IsApart gc g e.src e.dst s.cycles s.clusters
  pub predicate : (v : ℕ) → Known g v → s.predicates v ≡ some (cluster_of s.clusters v).predicate

pub setup-IsReady :
    (gc : GraphCycles) (laws : IsLawful gc) (g : Graph) (ends : EndsKnown g)
    (get : ℕ → Status String) (s : Start gc.State)
    → setup gc g get ≡ ok s
    → IsReady gc g s
unfolding setup
setup-IsReady gc laws g ends get s h =
    let blank : Start gc.State = record {
      cycles = gc.empty;
      clusters = no_clusters;
      predicates = λ v. none;
    } in
    let (s0, first, h1) = >>=-eq-ok (make_clusters gc g get g.nodes blank) _ h in
    let (c1, second, h2) = >>=-eq-ok (insert_flow_edges gc g s0.clusters g.edges s0.cycles) _ h1 in
    let (c2, third, last) = >>=-eq-ok (shadow_nodes gc g s0.clusters g.nodes c1) _ h2 in
    let made = make_clusters_all gc laws g get blank s0 first in
    let sound0 = IsMade-IsSound gc g s0 made in
    let flows =
      insert_flow_edges-AllInserted gc laws g ends s0.clusters g.edges s0.cycles c1 (λ e i. i)
        sound0 second in
    let sound1 = IsSound-Extends gc flows.grows sound0 in
    let shadows = shadow_nodes-Extends gc laws g ends s0.clusters g.nodes c1 c2 sound1 third in
    subst (IsReady gc g) (ok-inj (record s0 { cycles = c2 }) s last) (record {
      sound = IsSound-Extends gc shadows.0 sound1;
      traced = record { traced = λ e i b. inr (shadows.0.edge _ _ (flows.joins e i b)) };
      apart = shadows.1;
      predicate = λ v k.
          made.predicate v k ∙ ap (λ c. some c.predicate) (sym (own_cluster gc g s0 made v k));
    })
  where
    ok-inj : (a b : Start gc.State) → ok a ≡ ok b → a ≡ b
    ok-inj a b p = cc

module _ (gc : GraphCycles) (laws : IsLawful gc) (g : Graph) (ends : EndsKnown g)
    (get : ℕ → Status String) (logging : Bool) (fuel : ℕ) (s : Start gc.State) (t : Search gc.State)
    (ready : setup gc g get ≡ ok s)
    (ended : contract_loop gc g logging fuel false (begin s) ≡ ok (some t)) where
  moves : Moves gc g s.cycles s.clusters t.cycles t.clusters
  moves = contract_loop-Moves gc g s.cycles s.clusters logging fuel false (begin s) t start ended

  is_ready : IsReady gc g s
  is_ready = setup-IsReady gc laws g ends get s ready

  -- When the detector has its laws, both ends of each edge are nodes of the graph and the
  -- contraction loop has ended, the clusters partition the nodes of the graph: a node is a member
  -- of its own cluster, the members of a cluster are the nodes that share its pointer, and
  -- different clusters have different indices in the cycle detector.
  pub contracted-IsSound : IsSound gc g t.cycles t.clusters
  contracted-IsSound = Moves-IsSound gc laws g ends moves is_ready.sound

  -- When the detector has its laws, both ends of each edge are nodes of the graph and the
  -- contraction loop has ended, no cluster is re-entered: a node that lies on a flow, along the
  -- edges that the check for cycles does not skip, from a node of a cluster to a node of the same
  -- cluster is itself in that cluster.
  pub contracted-convex :
      (u v w : ℕ)
      → Known g u
      → Known g v
      → Flow g u v
      → Flow g v w
      → t.clusters.owner u ≡ t.clusters.owner w
      → t.clusters.owner v ≡ t.clusters.owner u
  contracted-convex =
      owner-between gc laws g ends t.cycles t.clusters contracted-IsSound
        (Moves-IsTraced gc laws g ends moves is_ready.sound is_ready.traced)

  -- When the detector has its laws, both ends of each edge are nodes of the graph and the
  -- contraction loop has ended, a static input of an op that no constant feeds has its two ends in
  -- different clusters.
  pub contracted-static_inputs :
      (n : Node) (i : In n g.nodes) (e : Edge)
      → In e g.edges
      → IsStaticEdge g n e
      → t.clusters.owner e.src ≢ t.clusters.owner e.dst
  contracted-static_inputs n i e k st =
      let ends' = ends e k in
      IsApart-owners gc laws g ends e.src e.dst ends'.0 ends'.1 t.cycles t.clusters (
        Moves-IsApart gc laws g ends e.src e.dst ends'.0 ends'.1 moves is_ready.sound
          (is_ready.apart n i e st))

  -- When the detector has its laws, both ends of each edge are nodes of the graph and the
  -- contraction loop has ended, the deadness predicate that the analysis gave a node is the true
  -- one, or that of the cluster that the node is in.
  pub contracted-predicates :
      (v : ℕ)
      → Known g v
      → (p : String) × (s.predicates v ≡ some p) × Fits p (cluster_of t.clusters v).predicate
  contracted-predicates v k =
      let own = λ (x : ℕ). (cluster_of s.clusters x).predicate in
      (
        own v,
        is_ready.predicate v k,
        Moves-ArePredicated gc laws g ends own moves is_ready.sound (λ x l. inr refl) v k,
      )
