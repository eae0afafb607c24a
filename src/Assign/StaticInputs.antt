-- ===== src/Assign/StaticInputs.antt =====
-- The two ends of a static input that no constant feeds are never put in one cluster.
use ngraph.Prelude.{ℕ, ◌≡◌, ◌≢◌, ap₂, sym, ◌∙◌, true, arith, nat_eq, nat_beq_iff, inl, inr, In}
use ngraph.Graph.{Edge, Graph}
use ngraph.GraphCycles.{GraphCycles, IsLawful, stop, step, rename}
use ngraph.Assign.Cluster.{ClusterMap, index_of, merge_clusters}
use ngraph.Assign.Invariant.{Known, EndsKnown, IsSound, index-merge_of_member}
use ngraph.Assign.Moves.{Moves, start, refused, merged, joined, attempt}
use ngraph.Assign.Convex.{Moves-IsSound}

-- `a` and `b` are joined through a shadow node, which is the index of no cluster
pub record IsApart (gc : GraphCycles) (g : Graph) (a b : ℕ) (c : gc.State) (m : ClusterMap)
    : Type 0 where
  pub shadow : ℕ
  pub into : gc.has_edge c (index_of m a) shadow ≡ true
  pub out : gc.has_edge c shadow (index_of m b) ≡ true
  pub unused : (v : ℕ) → Known g v → index_of m v ≢ shadow

rename_ne : (s d x y : ℕ) → s ≢ y → x ≢ y → rename s d x ≢ y
rename_ne s d x y h k = ground (arith, nat_beq_iff x d)

rename_other : (s d y : ℕ) → d ≢ y → rename s d y ≡ y
rename_other s d y h = ground (arith, nat_beq_iff y d)

module _ (gc : GraphCycles) (laws : IsLawful gc) (g : Graph) (ends : EndsKnown g) (a b : ℕ)
    (ka : Known g a) (kb : Known g b) where
  IsApart-merge :
      (c : gc.State) (m : ClusterMap) (s : IsSound gc g c m) (e : Edge) (i : In e g.edges)
      (j : joined gc c m e ≡ true) (done : (attempt gc c m e).0 ≡ true)
      → IsApart gc g a b c m
      → IsApart gc g a b (attempt gc c m e).1 (merge_clusters e m)
  IsApart-merge c m s e i j done h =
      let si = index_of m e.src in
      let di = index_of m e.dst in
      let src_ne = h.unused e.src (ends e i).0 in
      let dst_ne = h.unused e.dst (ends e i).1 in
      let renamed =
        λ (v : ℕ) (k : Known g v). index-merge_of_member gc laws g c m s e (ends e i) j v k in
      let other = rename_other si di h.shadow dst_ne in
      let ne =
        λ (v : ℕ) (k : Known g v). rename_ne si di (index_of m v) h.shadow src_ne (h.unused v k) in
      record {
        shadow = h.shadow;
        into =
            ap₂ (gc.has_edge (attempt gc c m e).1) (renamed a ka) (sym other)
            ∙ elim (laws.contract_edge_renames c si di (index_of m a) h.shadow j done h.into) [
              | inl same ↦ absurd (ne a ka (same ∙ other))
              | inr edge ↦ edge
            ];
        out =
            ap₂ (gc.has_edge (attempt gc c m e).1) (sym other) (renamed b kb)
            ∙ elim (laws.contract_edge_renames c si di h.shadow (index_of m b) j done h.out) [
              | inl same ↦ absurd (ne b kb (sym same ∙ other))
              | inr edge ↦ edge
            ];
        unused = λ v k p. ne v k (sym (renamed v k) ∙ p);
      }

  pub Moves-IsApart :
      {c : gc.State} {m : ClusterMap} {c' : gc.State} {m' : ClusterMap}
      → Moves gc g c m c' m'
      → IsSound gc g c m
      → IsApart gc g a b c m
      → IsApart gc g a b c' m'
  Moves-IsApart start s h = h
  Moves-IsApart (refused {c' = d} {m' = n} r e j no') s h =
      let h' = Moves-IsApart r s h in
      let same =
        λ (x y : ℕ). laws.contract_edge_refused d (index_of n e.src) (index_of n e.dst) x y j no' in
      record {
        shadow = h'.shadow;
        into = same (index_of n a) h'.shadow ∙ h'.into;
        out = same h'.shadow (index_of n b) ∙ h'.out;
        unused = h'.unused;
      }
  Moves-IsApart (merged {c' = d} {m' = n} r e i el j done) s h =
      IsApart-merge d n (Moves-IsSound gc laws g ends r s) e i j done (Moves-IsApart r s h)

  pub IsApart-owners :
      (c : gc.State) (m : ClusterMap) → IsApart gc g a b c m → m.owner a ≢ m.owner b
  IsApart-owners c m h p =
      let out = rw (← p, index_of) at h.out in
      laws.acyclic c (index_of m a) h.shadow h.into
        (step h.shadow h.out (rw (p, index_of) (stop (index_of m b))))
