-- ===== src/Assign/Numbers.antt =====
-- What the tagging loop of AssignClusters leaves on the nodes: one id for each cluster.
use ngraph.Prelude.{
  ℕ, ◌<◌, ◌≤◌, String, ◌≡◌, sym, ◌∙◌, subst, Bool, true, false, ◌&&◌, Option, some, List, [], ◌∷◌,
  ◌++◌, nat_eq, nat_beq_iff, if◌then◌else◌, contains, insert, contains-insert, length,
  length-append, update, arith, Bool-cases, inl, inr, ◌↔◌,
}
use ngraph.Prelude.Int.{pos}
use ngraph.Prelude.Status.{Code, ok, err, >>=-eq-ok, Status-cases}
use ngraph.Graph.{Graph, ids}
use ngraph.ClusterManager.{ClusterManager, new_cluster}
use ngraph.Assign.Cluster.{ClusterMap}
use ngraph.Assign.Deadness.{check_node_cluster_assignment}
use ngraph.Assign.Invariant.{Known}
use ngraph.Assign.Moves.{marked}
use ngraph.Assign.Tag.{Tagging, scan_nodes, tag_nodes, tag_cluster, tag_clusters}
use ngraph.Assign.Tagged.{cluster_at, TagsWritten, tag_nodes-TagsWritten}

-- `has_ngraph_ops` and `has_non_ngraph_ops` cover the nodes that were scanned
record Scanned (g : Graph) (vs : List ℕ) (has non : Bool) : Type 0 where
  marked_ops : (w : ℕ) → contains vs w ≡ true → marked g w ≡ true → has ≡ true
  other_ops : (w : ℕ) → contains vs w ≡ true → marked g w ≡ false → non ≡ true

scan_nodes-Scanned :
    (predicates : ℕ → Option String) (m : ClusterMap) (g : Graph) (vs : List ℕ) (has non : Bool)
    → scan_nodes predicates m g vs ≡ ok (has, non)
    → Scanned g vs has non
unfolding scan_nodes contains
scan_nodes-Scanned predicates m g [] has non h = record {
  marked_ops = λ w i k. cc;
  other_ops = λ w i k. cc;
}
scan_nodes-Scanned predicates m g (v ∷ vs) has non h =
    elim (Status-cases (scan_nodes predicates m g vs)) [
      | inr (e, bad) ↦ absurd (impossible e bad)
      | inl ((ng, non0), good) ↦
          let rest = scan_nodes-Scanned predicates m g vs ng non0 good in
          elim (Bool-cases (marked g v)) [
            | inl yes' ↦ elim (Status-cases (check_node_cluster_assignment g predicates m v)) [
              | inr (e, bad) ↦ absurd (ground arith)
              | inl (u, fine) ↦
                  let a : true ≡ has = ground arith in
                  let b : non0 ≡ non = ground arith in
                  record {
                    marked_ops = λ w i k. cc;
                    other_ops = λ w i k. ground (arith, rest.other_ops w, nat_beq_iff w v);
                  }
            ]
            | inr no' ↦
                let a : ng ≡ has = ground arith in
                let b : true ≡ non = ground arith in
                record {
                  marked_ops = λ w i k. ground (arith, rest.marked_ops w, nat_beq_iff w v);
                  other_ops = λ w i k. cc;
                }
          ]
    ]
  where
    impossible : (e : Code) → scan_nodes predicates m g vs ≡ err e → ⊥
    impossible e bad = elim (Bool-cases (marked g v)) [
      | inr no' ↦ ground arith
      | inl yes' ↦ elim (Status-cases (check_node_cluster_assignment g predicates m v)) [
        | inr (e', bad') ↦ ground arith
        | inl (u, fine) ↦ ground arith
      ]
    ]

-- the graph and the manager before the loop
module _ (m : ClusterMap) (g : Graph) (manager : ClusterManager) where
  abbrev first_id : ℕ
  first_id = length manager.cluster_graphs

  -- `num` is the id that a pointer was given
  pub record IsNumbered (num : ℕ → ℕ) (t : Tagging) : Type 0 where
    pub nodes : ids t.graph ≡ ids g
    pub marks : (v : ℕ) → Known g v → marked t.graph v ≡ marked g v
    pub tags :
        (v : ℕ)
        → Known g v
        → cluster_at t.graph v ≡ (
            if contains t.seen (m.owner v) && marked g v
            then some (pos (num (m.owner v)))
            else cluster_at g v)
    pub from : first_id ≤ length t.manager.cluster_graphs
    pub range :
        (v : ℕ)
        → Known g v
        → contains t.seen (m.owner v) ≡ true
        → marked g v ≡ true
        → (first_id ≤ num (m.owner v)) × (num (m.owner v) < length t.manager.cluster_graphs)
    pub distinct :
        (v w : ℕ)
        → Known g v
        → Known g w
        → contains t.seen (m.owner v) ≡ true
        → marked g v ≡ true
        → contains t.seen (m.owner w) ≡ true
        → marked g w ≡ true
        → num (m.owner v) ≡ num (m.owner w)
        → m.owner v ≡ m.owner w
    pub uniform :
        (v w : ℕ)
        → Known g v
        → Known g w
        → m.owner v ≡ m.owner w
        → contains t.seen (m.owner v) ≡ true
        → marked g v ≡ marked g w

  module _ (predicates : ℕ → Option String) (p : ℕ)
      (members : (w : ℕ) → (contains (m.heap p).nodes w ≡ true) ↔ (Known g w × (m.owner w ≡ p)))
      (num : ℕ → ℕ) (t : Tagging) (n : IsNumbered num t) (unseen : contains t.seen p ≡ false) where
    -- a cluster without marked ops is only noted as seen
    skipped-IsNumbered :
        ((w : ℕ) → contains (m.heap p).nodes w ≡ true → marked g w ≡ false)
        → IsNumbered num (record t { seen = insert p t.seen })
    skipped-IsNumbered none_marked = record {
      nodes = n.nodes;
      marks = n.marks;
      tags = λ v k. ground (
        arith,
        n.tags v k,
        contains-insert p (m.owner v) t.seen,
        nat_beq_iff (m.owner v) p,
        members v,
        none_marked v,
      );
      from = n.from;
      range = λ v k s y. ground (
        arith,
        n.range v k,
        contains-insert p (m.owner v) t.seen,
        nat_beq_iff (m.owner v) p,
        members v,
        none_marked v,
      );
      distinct = λ v w k l s y s' y' h. ground (
        arith,
        n.distinct v w k l,
        contains-insert p (m.owner v) t.seen,
        contains-insert p (m.owner w) t.seen,
        nat_beq_iff (m.owner v) p,
        nat_beq_iff (m.owner w) p,
        members v,
        members w,
        none_marked v,
        none_marked w,
      );
      uniform = λ v w k l o s. ground (
        arith,
        n.uniform v w k l o,
        contains-insert p (m.owner v) t.seen,
        nat_beq_iff (m.owner v) p,
        members v,
        members w,
        none_marked v,
        none_marked w,
      );
    }

    abbrev idx : ℕ
    idx = length t.manager.cluster_graphs

    abbrev more : ClusterManager
    more = record { cluster_graphs = t.manager.cluster_graphs ++ [] ∷ [] }

    tagged-IsNumbered :
        (h : Graph)
        → ((w : ℕ) → contains (m.heap p).nodes w ≡ true → marked g w ≡ true)
        → TagsWritten idx (m.heap p).nodes t.graph h
        → IsNumbered
            (update num p idx)
            (record { graph = h; manager = more; seen = insert p t.seen })
    tagged-IsNumbered h all_marked written =
        let here = λ (v : ℕ) (k : Known g v). subst (λ l. contains l v ≡ true) (sym n.nodes) k in
        let longer = length-append t.manager.cluster_graphs ([] ∷ []) in
        record {
          nodes = written.nodes ∙ n.nodes;
          marks = λ v k. written.marks v (here v k) ∙ n.marks v k;
          tags = λ v k. ground (
            arith,
            n.tags v k,
            written.clusters v (here v k),
            contains-insert p (m.owner v) t.seen,
            nat_beq_iff (m.owner v) p,
            members v,
            all_marked v,
          );
          from = omega (arith, longer, n.from);
          range = λ v k s y. ground (
            arith,
            n.range v k,
            n.from,
            longer,
            contains-insert p (m.owner v) t.seen,
            nat_beq_iff (m.owner v) p,
          );
          distinct = λ v w k l s y s' y' e. ground (
            arith,
            n.distinct v w k l,
            n.range v k,
            n.range w l,
            contains-insert p (m.owner v) t.seen,
            contains-insert p (m.owner w) t.seen,
            nat_beq_iff (m.owner v) p,
            nat_beq_iff (m.owner w) p,
          );
          uniform = λ v w k l o s. ground (
            arith,
            n.uniform v w k l o,
            contains-insert p (m.owner v) t.seen,
            nat_beq_iff (m.owner v) p,
            members v,
            members w,
            all_marked v,
            all_marked w,
          );
        }

  module _ (predicates : ℕ → Option String) where
    -- one round of the loop
    record Round (num : ℕ → ℕ) (t' : Tagging) (p : ℕ) (t : Tagging) : Type 0 where
      num' : ℕ → ℕ
      numbered : IsNumbered num' t'
      now_seen : contains t'.seen p ≡ true
      still_seen : (q : ℕ) → contains t.seen q ≡ true → contains t'.seen q ≡ true

    tagging-eq : (a b : Tagging) → ok a ≡ ok b → a ≡ b
    tagging-eq a b h = cc

    tag_cluster-Round :
        (p : ℕ)
        (members : (w : ℕ) → (contains (m.heap p).nodes w ≡ true) ↔ (Known g w × (m.owner w ≡ p)))
        (num : ℕ → ℕ) (t t' : Tagging)
        → IsNumbered num t
        → tag_cluster predicates m p t ≡ ok t'
        → Round num t' p t
    unfolding tag_cluster new_cluster
    tag_cluster-Round p members num t t' n h = elim (Bool-cases (contains t.seen p)) [
      | inl seen ↦
          let same : t ≡ t' = tagging-eq t t' (ground arith) in
          subst (λ x. Round num x p t) same
            (record { num' = num; numbered = n; now_seen = seen; still_seen = λ q s. s })
      | inr unseen ↦ elim (Status-cases (scan_nodes predicates m t.graph (m.heap p).nodes)) [
        | inr (e, bad) ↦ absurd (ground arith)
        | inl ((has, non), good) ↦
            let sc = scan_nodes-Scanned predicates m t.graph (m.heap p).nodes has non good in
            elim (Bool-cases has) [
              | inr without ↦
                  let t1 = record t { seen = insert p t.seen } in
                  let same : t1 ≡ t' = tagging-eq t1 t' (ground arith) in
                  subst (λ x. Round num x p t) same
                    (record {
                      num' = num;
                      numbered =
                          skipped-IsNumbered predicates p members num t n unseen
                            (λ w i. ground (arith, sc.marked_ops w i, n.marks w, members w));
                      now_seen = ground (arith, contains-insert p p t.seen, nat_beq_iff p p);
                      still_seen = λ q s. ground (arith, contains-insert p q t.seen);
                    })
              | inl with_ops ↦ elim (Bool-cases non) [
                | inl mixed ↦ absurd (ground arith)
                | inr pure ↦
                    elim (Status-cases (
                      tag_nodes predicates m (length t.manager.cluster_graphs) (m.heap p).nodes
                        t.graph)) [
                          | inr (e, bad) ↦ absurd (ground arith)
                          | inl (h', written) ↦
                              let t1 : Tagging = record {
                                graph = h';
                                manager = record {
                                  cluster_graphs = t.manager.cluster_graphs ++ [] ∷ [];
                                };
                                seen = insert p t.seen;
                              } in
                              let same : t1 ≡ t' = tagging-eq t1 t' (ground arith) in
                              subst (λ x. Round num x p t) same
                                (record {
                                  num' = update num p (length t.manager.cluster_graphs);
                                  numbered =
                                      tagged-IsNumbered predicates p members num t n unseen h'
                                        (λ w i.
                                          ground (arith, sc.other_ops w i, n.marks w, members w))
                                        (tag_nodes-TagsWritten predicates m
                                          (length t.manager.cluster_graphs) (m.heap p).nodes t.graph
                                          h' written);
                                  now_seen =
                                      ground (arith, contains-insert p p t.seen, nat_beq_iff p p);
                                  still_seen = λ q s. ground (arith, contains-insert p q t.seen);
                                })
                        ]
              ]
            ]
      ]
    ]

    -- the whole loop
    pub record Numbered (vs : List ℕ) (t t' : Tagging) : Type 0 where
      pub num : ℕ → ℕ
      pub numbered : IsNumbered num t'
      pub all_seen : (v : ℕ) → contains vs v ≡ true → contains t'.seen (m.owner v) ≡ true
      pub still_seen : (q : ℕ) → contains t.seen q ≡ true → contains t'.seen q ≡ true

    pub tag_clusters-Numbered :
        (members : (v w : ℕ)
          → Known g v
          → (contains (m.heap (m.owner v)).nodes w ≡ true) ↔ (Known g w × (m.owner w ≡ m.owner v)))
        (vs : List ℕ) (num : ℕ → ℕ) (t t' : Tagging)
        → ((v : ℕ) → contains vs v ≡ true → Known g v)
        → IsNumbered num t
        → tag_clusters predicates m vs t ≡ ok t'
        → Numbered vs t t'
    unfolding tag_clusters contains
    tag_clusters-Numbered members [] num t t' sub n h =
        subst (Numbered [] t) (tagging-eq t t' h)
          (record { num = num; numbered = n; all_seen = λ v i. cc; still_seen = λ q s. s })
    tag_clusters-Numbered members (v ∷ vs) num t t' sub n h =
        let (t1, first, rest) =
          >>=-eq-ok (tag_cluster predicates m (m.owner v) t) (tag_clusters predicates m vs) h in
        let k = sub v (ground (arith, nat_beq_iff v v)) in
        let one = tag_cluster-Round (m.owner v) (λ w. members v w k) num t t1 n first in
        let more =
          tag_clusters-Numbered members vs one.num' t1 t' (λ w i. sub w (ground arith)) one.numbered
            rest in
        record {
          num = more.num;
          numbered = more.numbered;
          all_seen = λ w i.
              ground
                (arith, more.all_seen w, more.still_seen (m.owner v) one.now_seen, nat_beq_iff w v);
          still_seen = λ q s. more.still_seen q (one.still_seen q s);
        }
