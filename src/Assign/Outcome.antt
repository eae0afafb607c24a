-- ===== src/Assign/Outcome.antt =====
-- The result of AssignClusters, ngraph_bridge/assign_clusters.cc, on the nodes of the graph.
use ngraph.Prelude.{
  ℕ, ◌+◌, ◌<◌, ◌≤◌, String, ◌≡◌, ◌≢◌, refl, ap, sym, ◌∙◌, true, false, none, some, [], nat_eq,
  contains, length, arith, In, inl, inr,
}
use ngraph.Prelude.Int.{pos}
use ngraph.Prelude.Status.{Status, ok, >>=-eq-ok, Status-cases}
use ngraph.Graph.{Node, Edge, Graph, ids}
use ngraph.GraphCycles.{GraphCycles, IsLawful}
use ngraph.ClusterManager.{ClusterManager}
use ngraph.Assign.Setup.{Start, setup}
use ngraph.Assign.Contract.{Search, contract_loop}
use ngraph.Assign.Invariant.{Known, EndsKnown, IsSound}
use ngraph.Assign.Moves.{marked}
use ngraph.Assign.Convex.{Flow}
use ngraph.Assign.Shadows.{IsStaticEdge}
use ngraph.Assign.Contracted.{
  begin, contracted-IsSound, contracted-convex, contracted-static_inputs,
}
use ngraph.Assign.Tag.{Tagging, tag_clusters, assign_clusters}
use ngraph.Assign.Tagged.{cluster_at}
use ngraph.Assign.Numbers.{IsNumbered, Numbered, tag_clusters-Numbered}

-- the steps of a run that succeeds
record Steps (gc : GraphCycles) (g : Graph) (manager : ClusterManager) (t : Tagging) : Type 0 where
  get : ℕ → Status String
  s : Start gc.State
  found : Search gc.State
  ready : setup gc g get ≡ ok s
  ended : contract_loop gc g false (length g.nodes + 1) false (begin s) ≡ ok (some found)
  tagged :
      tag_clusters s.predicates found.clusters
        (ids g)
        (record { graph = g; manager = manager; seen = [] })
      ≡ ok t

assign_clusters-Steps :
    (gc : GraphCycles) (deadness : Graph → Status (ℕ → Status String)) (g : Graph)
    (manager : ClusterManager) (t : Tagging)
    → assign_clusters gc deadness g manager ≡ ok (some t)
    → Steps gc g manager t
unfolding assign_clusters
assign_clusters-Steps gc deadness g manager t h =
    let (get, analysed, h1) = >>=-eq-ok (deadness g) _ h in
    let (s, ready, h2) = >>=-eq-ok (setup gc g get) _ h1 in
    let fuel = length g.nodes + 1 in
    elim (Status-cases (contract_loop gc g false fuel false (begin s))) [
      | inr (code, bad) ↦ absurd (ground arith)
      | inl (none, ended) ↦ absurd (ground arith)
      | inl (some found, ended) ↦
          let (t', tagged, last) =
            >>=-eq-ok
              (tag_clusters s.predicates found.clusters (ids g)
                (record { graph = g; manager = manager; seen = [] }))
              (λ r. ok (some r)) {b = some t} (ground arith) in
          record {
            get = get;
            s = s;
            found = found;
            ready = ready;
            ended = ended;
            tagged = tagged ∙ ap (λ x. ok x) (some-inj t' t last);
          }
    ]
  where
    some-inj : (a b : Tagging) → ok (some a) ≡ ok (some b) → a ≡ b
    some-inj a b p = cc

module _ (gc : GraphCycles) (laws : IsLawful gc) (deadness : Graph → Status (ℕ → Status String))
    (g : Graph) (ends : EndsKnown g) (manager : ClusterManager) (t : Tagging)
    (done : assign_clusters gc deadness g manager ≡ ok (some t)) where
  steps : Steps gc g manager t
  steps = assign_clusters-Steps gc deadness g manager t done

  sound : IsSound gc g steps.found.cycles steps.found.clusters
  sound =
      contracted-IsSound gc laws g ends steps.get false (length g.nodes + 1) steps.s steps.found
        steps.ready steps.ended

  numbered :
      Numbered steps.found.clusters g manager steps.s.predicates
        (ids g)
        (record { graph = g; manager = manager; seen = [] })
        t
  numbered =
      tag_clusters-Numbered steps.found.clusters g manager steps.s.predicates
        (λ v w k. sound.members v w k) (ids g) (λ p. 0)
        (record { graph = g; manager = manager; seen = [] }) t (λ v i. i) start steps.tagged
    where
      start :
          IsNumbered steps.found.clusters g manager
            (λ p. 0)
            (record { graph = g; manager = manager; seen = [] })
      start =
          unfold contains in
          record {
            nodes = refl;
            marks = λ v k. refl;
            tags = λ v k. refl;
            from = omega arith;
            range = λ v k s y. cc;
            distinct = λ v w k l s y s' y' e. cc;
            uniform = λ v w k l o s. cc;
          }

  num : ℕ → ℕ
  num = numbered.num

  tag_of :
      (v : ℕ)
      → Known g v
      → marked g v ≡ true
      → cluster_at t.graph v ≡ some (pos (num (steps.found.clusters.owner v)))
  unfolding num
  tag_of v k y = ground (arith, numbered.numbered.tags v k, numbered.all_seen v k)

  pos-inj : (a b : ℕ) → some (pos a) ≡ some (pos b) → a ≡ b
  pos-inj a b h = cc

  same_owner :
      (u w : ℕ)
      → Known g u
      → Known g w
      → marked g u ≡ true
      → marked g w ≡ true
      → cluster_at t.graph u ≡ cluster_at t.graph w
      → steps.found.clusters.owner u ≡ steps.found.clusters.owner w
  unfolding num
  same_owner u w k l y z h =
      numbered.numbered.distinct u w k l (numbered.all_seen u k) y (numbered.all_seen w l) z (
        pos-inj (num (steps.found.clusters.owner u)) (num (steps.found.clusters.owner w))
          (sym (tag_of u k y) ∙ h ∙ tag_of w l z))

  -- When the cycle detector has its laws, both ends of each edge are nodes of the graph and the
  -- clustering pass succeeds without logging placement, the nodes are the same and keep their
  -- marks. Each marked node has a cluster id, which is an index that the pass added to the table
  -- of cluster graphs; an unmarked node keeps the id that it had, or has none as before.
  pub assign_clusters-ids :
      (ids t.graph ≡ ids g)
      × ((v : ℕ)
          → Known g v
          → (marked t.graph v ≡ marked g v)
            × (marked g v ≡ false → cluster_at t.graph v ≡ cluster_at g v)
            × (marked g v ≡ true
                → (i : ℕ) × (cluster_at t.graph v ≡ some (pos i))
                  × (length manager.cluster_graphs ≤ i)
                  × (i < length t.manager.cluster_graphs)))
  unfolding num
  assign_clusters-ids = (
    numbered.numbered.nodes,
    λ v k. (
      numbered.numbered.marks v k,
      λ y. ground (arith, numbered.numbered.tags v k),
      λ y.
          let r = numbered.numbered.range v k (numbered.all_seen v k) y in
          (num (steps.found.clusters.owner v), tag_of v k y, r.0, r.1),
    ),
  )

  -- When the cycle detector has its laws, both ends of each edge are nodes of the graph and the
  -- clustering pass succeeds without logging placement, no cluster is re-entered: if two marked
  -- nodes have the same cluster id, every node on a flow from the one to the other, along the
  -- edges that the check for cycles does not skip, is marked and has that id as well.
  pub assign_clusters-convex :
      (u v w : ℕ)
      → Known g u
      → Known g v
      → Known g w
      → Flow g u v
      → Flow g v w
      → marked g u ≡ true
      → marked g w ≡ true
      → cluster_at t.graph u ≡ cluster_at t.graph w
      → (marked g v ≡ true) × (cluster_at t.graph v ≡ cluster_at t.graph u)
  unfolding num
  assign_clusters-convex u v w ku kv kw p q yu yw h =
      let inside =
        contracted-convex gc laws g ends steps.get false (length g.nodes + 1) steps.s steps.found
          steps.ready steps.ended u v w ku kv p q (same_owner u w ku kw yu yw h) in
      let yv = numbered.numbered.uniform v u kv ku inside (numbered.all_seen v kv) ∙ yu in
      (yv, tag_of v kv yv ∙ ap (λ x. some (pos (num x))) inside ∙ sym (tag_of u ku yu))

  -- When the cycle detector has its laws, both ends of each edge are nodes of the graph and the
  -- clustering pass succeeds without logging placement, a static input of a marked op that a
  -- marked op other than a constant feeds comes from another cluster.
  pub assign_clusters-static_inputs :
      (n : Node)
      → In n g.nodes
      → (e : Edge) → In e g.edges
      → IsStaticEdge g n e
      → marked g e.src ≡ true
      → marked g e.dst ≡ true
      → cluster_at t.graph e.src ≢ cluster_at t.graph e.dst
  assign_clusters-static_inputs n i e k st ys yd h =
      contracted-static_inputs gc laws g ends steps.get false (length g.nodes + 1) steps.s
        steps.found steps.ready steps.ended n i e k st
        (same_owner e.src e.dst (ends e k).0 (ends e k).1 ys yd h)
