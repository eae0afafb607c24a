-- ===== src/Assign/Convex.antt =====
-- No data or control flow re-enters a cluster.
use ngraph.Prelude.{ℕ, ◌≡◌, refl, ap₂, sym, ◌∙◌, true, false, arith, nat_eq, inl, inr, In, ◌⊎◌}
use ngraph.Graph.{Edge, Graph}
use ngraph.GraphCycles.{GraphCycles, IsLawful, Walk, stop, step}
use ngraph.Assign.Cluster.{ClusterMap, index_of, merge_clusters}
use ngraph.Assign.Setup.{is_flow_edge}
use ngraph.Assign.Invariant.{
  Known, EndsKnown, IsSound, merge-IsSound, owner-merge_of_member, index-merge_of_member,
}
use ngraph.Assign.Moves.{Moves, start, refused, merged, joined, attempt}

-- the flow of the graph along the edges that the cycle detector was given
pub data Flow (g : Graph) : ℕ → ℕ → Type 0 where
  here : (u : ℕ) → Flow g u u
  along :
      (e : Edge) {w : ℕ} → In e g.edges → is_flow_edge g e ≡ true → Flow g e.dst w → Flow g e.src w

-- the ends of each such edge are in one cluster, or joined in the cycle detector
pub record IsTraced (gc : GraphCycles) (g : Graph) (c : gc.State) (m : ClusterMap) : Type 0 where
  pub traced :
      (e : Edge)
      → In e g.edges
      → is_flow_edge g e ≡ true
      → (m.owner e.src ≡ m.owner e.dst) ⊎ (joined gc c m e ≡ true)

module _ (gc : GraphCycles) (laws : IsLawful gc) (g : Graph) (ends : EndsKnown g) where
  refused-IsSound :
      (c : gc.State) (m : ClusterMap) (e : Edge)
      → IsSound gc g c m
      → joined gc c m e ≡ true
      → (attempt gc c m e).0 ≡ false
      → IsSound gc g (attempt gc c m e).1 m
  refused-IsSound c m e s j no' = record {
    members = s.members;
    root = s.root;
    live = λ v k.
        laws.contract_edge_refused_alive c (index_of m e.src) (index_of m e.dst) (index_of m v) j
          no'
        ∙ s.live v k;
    distinct = s.distinct;
  }

  pub Moves-IsSound :
      {c : gc.State} {m : ClusterMap} {c' : gc.State} {m' : ClusterMap}
      → Moves gc g c m c' m'
      → IsSound gc g c m
      → IsSound gc g c' m'
  Moves-IsSound start s = s
  Moves-IsSound (refused {c' = d} {m' = n} r e j no') s =
      refused-IsSound d n e (Moves-IsSound r s) j no'
  Moves-IsSound (merged {c' = d} {m' = n} r e i el j yes') s =
      merge-IsSound gc laws g d n (Moves-IsSound r s) e (ends e i) j yes'

  -- one contraction keeps the trace of an edge
  traced-merge :
      (c : gc.State) (m : ClusterMap) (s : IsSound gc g c m) (e : Edge) (i : In e g.edges)
      (j : joined gc c m e ≡ true) (done : (attempt gc c m e).0 ≡ true) (f : Edge)
      (k : In f g.edges)
      → (m.owner f.src ≡ m.owner f.dst) ⊎ (joined gc c m f ≡ true)
      → ((merge_clusters e m).owner f.src ≡ (merge_clusters e m).owner f.dst)
        ⊎ (joined gc (attempt gc c m e).1 (merge_clusters e m) f ≡ true)
  traced-merge c m s e i j done f k (inl same) = inl (
      ground (
        arith,
        owner-merge_of_member gc laws g c m s e (ends e i) j f.src (ends f k).0,
        owner-merge_of_member gc laws g c m s e (ends e i) j f.dst (ends f k).1,
      ))
  traced-merge c m s e i j done f k (inr near) =
      let s' = merge-IsSound gc laws g c m s e (ends e i) j done in
      let src' = index-merge_of_member gc laws g c m s e (ends e i) j f.src (ends f k).0 in
      let dst' = index-merge_of_member gc laws g c m s e (ends e i) j f.dst (ends f k).1 in
      elim (laws.contract_edge_renames c (index_of m e.src) (index_of m e.dst) (index_of m f.src)
        (index_of m f.dst) j done near) [
          | inl same ↦
              inl (s'.distinct f.src f.dst (ends f k).0 (ends f k).1 (src' ∙ same ∙ sym dst'))
          | inr edge ↦ inr (ap₂ (gc.has_edge (attempt gc c m e).1) src' dst' ∙ edge)
        ]

  pub Moves-IsTraced :
      {c : gc.State} {m : ClusterMap} {c' : gc.State} {m' : ClusterMap}
      → Moves gc g c m c' m'
      → IsSound gc g c m
      → IsTraced gc g c m
      → IsTraced gc g c' m'
  Moves-IsTraced start s t = t
  Moves-IsTraced (refused {c' = d} {m' = n} r e j no') s t =
      let t' = Moves-IsTraced r s t in
      record {
        traced = λ f i b. elim (t'.traced f i b) [
          | inl same ↦ inl same
          | inr near ↦ inr (
              laws.contract_edge_refused d (index_of n e.src) (index_of n e.dst) (index_of n f.src)
                (index_of n f.dst) j no'
              ∙ near)
        ];
      }
  Moves-IsTraced (merged {c' = d} {m' = n} r e i el j done) s t =
      let t' = Moves-IsTraced r s t in
      record {
        traced = λ f k b. traced-merge d n (Moves-IsSound r s) e i j done f k (t'.traced f k b);
      }

Walk-trans :
    (gc : GraphCycles) (s : gc.State) {u v w : ℕ} → Walk gc s u v → Walk gc s v w → Walk gc s u w
Walk-trans gc s (stop u) q = q
Walk-trans gc s (step u h p) q = step u h (Walk-trans gc s p q)

-- a round trip in an acyclic state goes nowhere
Walk-round :
    (gc : GraphCycles) (laws : IsLawful gc) (s : gc.State) {u v : ℕ}
    → Walk gc s u v
    → Walk gc s v u
    → u ≡ v
Walk-round gc laws s (stop u) q = refl
Walk-round gc laws s (step u {v = x} h p) q = absurd (laws.acyclic s u x h (Walk-trans gc s p q))

module _ (gc : GraphCycles) (laws : IsLawful gc) (g : Graph) (ends : EndsKnown g) (c : gc.State)
    (m : ClusterMap) (s : IsSound gc g c m) (t : IsTraced gc g c m) where
  Flow-Walk : {u v : ℕ} → Flow g u v → Walk gc c (index_of m u) (index_of m v)
  Flow-Walk (here u) = stop (index_of m u)
  Flow-Walk (along e i b p) = elim (t.traced e i b) [
    | inl same ↦ rw (same, index_of) (Flow-Walk p)
    | inr near ↦ step (index_of m e.src) near (Flow-Walk p)
  ]

  -- a node that lies on a flow from a cluster back to it is in that cluster
  pub owner-between :
      (u v w : ℕ)
      → Known g u
      → Known g v
      → Flow g u v
      → Flow g v w
      → m.owner u ≡ m.owner w
      → m.owner v ≡ m.owner u
  owner-between u v w ku kv p q h =
      sym
        (s.distinct u v ku kv (Walk-round gc laws c (Flow-Walk p) (rw (h, index_of) (Flow-Walk q))))
