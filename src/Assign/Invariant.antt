-- ===== src/Assign/Invariant.antt =====
-- The cluster map and the cycle detector agree: every known node is a member of its cluster and of
-- no other, and clusters have distinct live indices. A contraction renames the indices.
use ngraph.Prelude.{
  ℕ, ◌≡◌, ◌≢◌, refl, ap, beq_refl, sym, ◌∙◌, true, ◌||◌, arith, ◌==◌, nat_eq, nat_beq_iff,
  if◌then◌else◌, contains, Bool-cases, inl, inr, ◌↔◌, In,
}
use ngraph.Graph.{Edge, Graph, ids}
use ngraph.GraphCycles.{GraphCycles, IsLawful, rename, stop}
use ngraph.Assign.Cluster.{ClusterMap, cluster_of, index_of, merge_clusters}
use ngraph.Assign.Store.{owner-merge, heap-merge_ne, members-merge, index-merge}

-- a node of the graph
abbrev pub Known : Graph → ℕ → Type 0
Known g v = contains (ids g) v ≡ true

-- both ends of an edge are nodes of the graph
abbrev pub EndsKnown : Graph → Type 0
EndsKnown g = (e : Edge) → In e g.edges → Known g e.src × Known g e.dst

pub record IsSound (gc : GraphCycles) (g : Graph) (c : gc.State) (m : ClusterMap) : Type 0 where
  pub members :
      (v w : ℕ)
      → Known g v
      → (contains (cluster_of m v).nodes w ≡ true) ↔ (Known g w × (m.owner w ≡ m.owner v))
  pub root : (v : ℕ) → Known g v → Known g (m.owner v) × (m.owner (m.owner v) ≡ m.owner v)
  pub live : (v : ℕ) → Known g v → gc.alive c (index_of m v) ≡ true
  pub distinct :
      (v w : ℕ) → Known g v → Known g w → index_of m v ≡ index_of m w → m.owner v ≡ m.owner w

rename-if :
    (f : ℕ → ℕ) (o s d : ℕ)
    → (f o ≡ f d → o ≡ d)
    → f (if o == d then s else o) ≡ rename (f s) (f d) (f o)
rename-if f o s d h = elim (Bool-cases (o == d)) [
  | inl p ↦ rw p (rw ((nat_beq_iff o d).0 p) (rw (beq_refl (f d)) refl))
  | inr p ↦ rw p (ground (arith, nat_beq_iff (f o) (f d), nat_beq_iff o d))
]

module _ (gc : GraphCycles) (laws : IsLawful gc) (g : Graph) (c : gc.State) (m : ClusterMap)
    (sound : IsSound gc g c m) (e : Edge) (known : Known g e.src × Known g e.dst)
    (joined : gc.has_edge c (index_of m e.src) (index_of m e.dst) ≡ true) where
  pub ends_differ : index_of m e.src ≢ index_of m e.dst
  ends_differ h =
      laws.acyclic c (index_of m e.src) (index_of m e.dst) joined (rw h (stop (index_of m e.dst)))

  pub owners_differ : m.owner e.src ≢ m.owner e.dst
  owners_differ h = ends_differ (ap (λ p. (m.heap p).index) h)

  pub owner-merge_of_member :
      (w : ℕ)
      → Known g w
      → (merge_clusters e m).owner w
        ≡ (if m.owner w == m.owner e.dst then m.owner e.src else m.owner w)
  owner-merge_of_member w k = ground (
    arith,
    owner-merge e m w,
    sound.members e.dst w known.1,
    nat_beq_iff (m.owner w) (m.owner e.dst),
  )

  pub index-merge_of_member :
      (w : ℕ)
      → Known g w
      → index_of (merge_clusters e m) w
        ≡ rename (index_of m e.src) (index_of m e.dst) (index_of m w)
  index-merge_of_member w k =
      index-merge e m ((merge_clusters e m).owner w)
      ∙ rw (owner-merge_of_member w k) (
          rename-if (λ p. (m.heap p).index) (m.owner w) (m.owner e.src) (m.owner e.dst)
            (sound.distinct w e.dst k known.1))

  contains-merge :
      (v w : ℕ)
      → Known g v
      → contains (cluster_of (merge_clusters e m) v).nodes w ≡ (
          if m.owner v == m.owner e.dst || m.owner v == m.owner e.src
          then contains (cluster_of m e.dst).nodes w || contains (cluster_of m e.src).nodes w
          else contains (cluster_of m v).nodes w)
  contains-merge v w k = ground (
    arith,
    owner-merge_of_member v k,
    members-merge e m w,
    heap-merge_ne e m (m.owner v),
    nat_beq_iff (m.owner v) (m.owner e.dst),
    nat_beq_iff (m.owner v) (m.owner e.src),
  )

  module _ (contracted : (gc.contract_edge c (index_of m e.src) (index_of m e.dst)).0 ≡ true) where
    members-merge_of_member :
        (v w : ℕ)
        → Known g v
        → (contains (cluster_of (merge_clusters e m) v).nodes w ≡ true)
          ↔ (Known g w × ((merge_clusters e m).owner w ≡ (merge_clusters e m).owner v))
    members-merge_of_member v w k = ground (
      arith,
      contains-merge v w k,
      sound.members v w k,
      sound.members e.src w known.0,
      sound.members e.dst w known.1,
      λ (l : Known g w). owner-merge_of_member w l,
      owner-merge_of_member v k,
      owners_differ,
      nat_beq_iff (m.owner v) (m.owner e.dst),
      nat_beq_iff (m.owner v) (m.owner e.src),
      nat_beq_iff (m.owner w) (m.owner e.dst),
    )

    root-merge :
        (v : ℕ)
        → Known g v
        → Known g ((merge_clusters e m).owner v)
          × ((merge_clusters e m).owner ((merge_clusters e m).owner v)
              ≡ (merge_clusters e m).owner v)
    root-merge v k = ground (
      arith,
      owner-merge_of_member v k,
      owner-merge_of_member (m.owner v) (sound.root v k).0,
      owner-merge_of_member (m.owner e.src) (sound.root e.src known.0).0,
      sound.root v k,
      sound.root e.src known.0,
      owners_differ,
      nat_beq_iff (m.owner v) (m.owner e.dst),
      nat_beq_iff (m.owner (m.owner v)) (m.owner e.dst),
      nat_beq_iff (m.owner (m.owner e.src)) (m.owner e.dst),
    )

    live-merge :
        (v : ℕ)
        → Known g v
        → gc.alive
            (gc.contract_edge c (index_of m e.src) (index_of m e.dst)).1
            (index_of (merge_clusters e m) v)
          ≡ true
    live-merge v k = rw (index-merge_of_member v k) (
        ground (
          arith,
          sound.live v k,
          sound.live e.src known.0,
          ends_differ,
          laws.contract_edge_alive c (index_of m e.src) (index_of m e.dst) (index_of m v),
          laws.contract_edge_alive c (index_of m e.src) (index_of m e.dst) (index_of m e.src),
          nat_beq_iff (index_of m v) (index_of m e.dst),
          nat_beq_iff (index_of m e.src) (index_of m e.dst),
        ))

    distinct-merge :
        (v w : ℕ)
        → Known g v
        → Known g w
        → index_of (merge_clusters e m) v ≡ index_of (merge_clusters e m) w
        → (merge_clusters e m).owner v ≡ (merge_clusters e m).owner w
    distinct-merge v w k l h = ground (
      arith,
      owner-merge_of_member v k,
      owner-merge_of_member w l,
      sym (index-merge_of_member v k) ∙ h ∙ index-merge_of_member w l,
      sound.distinct v w k l,
      sound.distinct v e.dst k known.1,
      sound.distinct w e.dst l known.1,
      sound.distinct e.src w known.0 l,
      sound.distinct v e.src k known.0,
      nat_beq_iff (index_of m v) (index_of m e.dst),
      nat_beq_iff (index_of m w) (index_of m e.dst),
    )

    pub merge-IsSound :
        IsSound gc g
          (gc.contract_edge c (index_of m e.src) (index_of m e.dst)).1
          (merge_clusters e m)
    merge-IsSound = record {
      members = members-merge_of_member;
      root = root-merge;
      live = live-merge;
      distinct = distinct-merge;
    }
