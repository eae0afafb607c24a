-- ===== src/Assign/Moves.antt =====
-- What one visit of an edge can do, and the moves of a whole contraction.
use ngraph.Prelude.{
  ℕ, ◌≡◌, refl, Bool, true, false, not, ◌&&◌, some, List, [], ◌∷◌, arith, nat_eq, Bool-cases, inl,
  inr, In, zero, suc,
}
use ngraph.Prelude.Status.{ok, Status-cases, >>=-eq-ok}
use ngraph.Graph.{Edge, Graph, is_op, node_at}
use ngraph.GraphCycles.{GraphCycles}
use ngraph.Mark.Access.{node_is_marked_for_clustering}
use ngraph.Assign.Cluster.{ClusterMap, index_of, merge_clusters}
use ngraph.Assign.Deadness.{can_contract_edge_deadness_check}
use ngraph.Assign.Contract.{Search, try_contract, visit, visit_all, round, contract_loop}

abbrev pub marked : Graph → ℕ → Bool
marked g v = node_is_marked_for_clustering (node_at g v)

-- the edge may be contracted, but for cycles
pub record IsEligible (g : Graph) (m : ClusterMap) (e : Edge) : Type 0 where
  pub op_src : is_op e.src ≡ true
  pub op_dst : is_op e.dst ≡ true
  pub marked_src : marked g e.src ≡ true
  pub marked_dst : marked g e.dst ≡ true
  pub deadness_ok : can_contract_edge_deadness_check g m e ≡ ok true

module _ (gc : GraphCycles) where
  abbrev pub attempt : gc.State → ClusterMap → Edge → Bool × gc.State
  attempt c m e = gc.contract_edge c (index_of m e.src) (index_of m e.dst)

  abbrev pub joined : gc.State → ClusterMap → Edge → Bool
  joined c m e = gc.has_edge c (index_of m e.src) (index_of m e.dst)

pub data Visited (gc : GraphCycles) (g : Graph) (e : Edge) (s t : Search gc.State) : Type 0 where
  stays : t.cycles ≡ s.cycles → t.clusters ≡ s.clusters → t.changed ≡ s.changed → Visited gc g e s t
  refuses :
      joined gc s.cycles s.clusters e ≡ true
      → (attempt gc s.cycles s.clusters e).0 ≡ false
      → t.cycles ≡ (attempt gc s.cycles s.clusters e).1
      → t.clusters ≡ s.clusters
      → t.changed ≡ s.changed
      → Visited gc g e s t
  merges :
      IsEligible g s.clusters e
      → joined gc s.cycles s.clusters e ≡ true
      → (attempt gc s.cycles s.clusters e).0 ≡ true
      → t.cycles ≡ (attempt gc s.cycles s.clusters e).1
      → t.clusters ≡ merge_clusters e s.clusters
      → t.changed ≡ true
      → Visited gc g e s t

module _ (gc : GraphCycles) (g : Graph) (collect : Bool) (e : Edge) (s t : Search gc.State) where
  try_contract-Visited :
      IsEligible g s.clusters e → try_contract gc g collect e s ≡ t → Visited gc g e s t
  unfolding try_contract
  try_contract-Visited el h = elim (Bool-cases (joined gc s.cycles s.clusters e)) [
    | inr apart ↦ stays (ground arith) (ground arith) (ground arith)
    | inl near ↦ elim (Bool-cases (attempt gc s.cycles s.clusters e).0) [
      | inl yes' ↦ merges el near yes' (ground arith) (ground arith) (ground arith)
      | inr no' ↦ refuses near no' (ground arith) (ground arith) (ground arith)
    ]
  ]

  pub visit-Visited : visit gc g collect e s ≡ ok t → Visited gc g e s t
  unfolding visit
  visit-Visited h = elim (Bool-cases (is_op e.src && is_op e.dst)) [
    | inr skip ↦ stays (ground arith) (ground arith) (ground arith)
    | inl ops ↦ elim (Bool-cases (marked g e.src && marked g e.dst)) [
      | inr skip ↦ stays (ground arith) (ground arith) (ground arith)
      | inl marks ↦ elim (Status-cases (can_contract_edge_deadness_check g s.clusters e)) [
        | inr (code, bad) ↦ absurd (ground arith)
        | inl (false, bad) ↦ stays (ground arith) (ground arith) (ground arith)
        | inl (true, good) ↦
            try_contract-Visited
              (record {
                op_src = ground arith;
                op_dst = ground arith;
                marked_src = ground arith;
                marked_dst = ground arith;
                deadness_ok = good;
              })
              (ground arith)
      ]
    ]
  ]

pub data Moves (gc : GraphCycles) (g : Graph) (c : gc.State) (m : ClusterMap)
    : gc.State → ClusterMap → Type 0 where
  start : Moves gc g c m c m
  refused :
      {c' : gc.State} {m' : ClusterMap}
      → Moves gc g c m c' m'
      → (e : Edge) → joined gc c' m' e ≡ true
      → (attempt gc c' m' e).0 ≡ false
      → Moves gc g c m (attempt gc c' m' e).1 m'
  merged :
      {c' : gc.State} {m' : ClusterMap}
      → Moves gc g c m c' m'
      → (e : Edge) → In e g.edges
      → IsEligible g m' e
      → joined gc c' m' e ≡ true
      → (attempt gc c' m' e).0 ≡ true
      → Moves gc g c m (attempt gc c' m' e).1 (merge_clusters e m')

module _ (gc : GraphCycles) (g : Graph) (c : gc.State) (m : ClusterMap) where
  abbrev pub Reached : Search gc.State → Type 0
  Reached s = Moves gc g c m s.cycles s.clusters

  pub Visited-Reached :
      (e : Edge) (s t : Search gc.State) → In e g.edges → Reached s → Visited gc g e s t → Reached t
  Visited-Reached e s t i r (stays p q _) = rw (p, q) r
  Visited-Reached e s t i r (refuses j no' p q _) = rw (p, q) (refused r e j no')
  Visited-Reached e s t i r (merges el j yes' p q _) = rw (p, q) (merged r e i el j yes')

  visit_all-Reached :
      (collect : Bool) (es : List Edge) (s t : Search gc.State)
      → ((e : Edge) → In e es → In e g.edges)
      → Reached s
      → visit_all gc g collect es s ≡ ok t
      → Reached t
  unfolding visit_all
  visit_all-Reached collect [] s t sub r h = ground (arith, r)
  visit_all-Reached collect (e ∷ es) s t sub r h =
      let (s', first, rest) = >>=-eq-ok (visit gc g collect e s) (visit_all gc g collect es) h in
      visit_all-Reached collect es s' t (λ x i. sub x (inr i))
        (Visited-Reached e s s' (sub e (inl refl)) r (visit-Visited gc g collect e s s' first)) rest

  round-Reached :
      (collect : Bool) (s t : Search gc.State) → Reached s → round gc g collect s ≡ ok t → Reached t
  unfolding round
  round-Reached collect s t r h =
      visit_all-Reached collect g.edges (record s { changed = false }) t (λ e i. i) r h

  ended-eq : (s t : Search gc.State) → ok (some s) ≡ ok (some t) → s ≡ t
  ended-eq s t h = cc

  pub contract_loop-Moves :
      (logging : Bool) (fuel : ℕ) (collect : Bool) (s t : Search gc.State)
      → Reached s
      → contract_loop gc g logging fuel collect s ≡ ok (some t)
      → Moves gc g c m t.cycles t.clusters
  unfolding contract_loop
  contract_loop-Moves logging zero collect s t r h = cc
  contract_loop-Moves logging (suc fuel) collect s t r h =
      elim (Status-cases (round gc g collect s)) [
        | inr (code, bad) ↦ absurd (ground arith)
        | inl (s', e) ↦
            let r' = round-Reached collect s s' r e in
            elim (Bool-cases s'.changed) [
              | inl more ↦ contract_loop-Moves logging fuel collect s' t r' (ground arith)
              | inr rest ↦ elim (Bool-cases (logging && not collect)) [
                | inl last ↦ contract_loop-Moves logging fuel true s' t r' (ground arith)
                | inr ended ↦ rw (ended-eq s' t (ground arith)) at r'
              ]
            ]
      ]
