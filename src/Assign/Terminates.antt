-- ===== src/Assign/Terminates.antt =====
-- The contraction loop ends: each contraction leaves one cluster fewer.
use ngraph.Prelude.{
  ℕ, zero, suc, ◌+◌, ◌≤◌, ◌<◌, ◌≡◌, ◌≢◌, refl, sym, subst, ◌∙◌, Bool, true, false, not, ◌&&◌, List,
  [], ◌∷◌, arith, ◌==◌, nat_eq, nat_beq_iff, if◌then◌else◌, inl, inr, In, ◌⊎◌, none, count,
  contains-In, In-contains, beq_refl,
}
use ngraph.Prelude.Status.{ok, >>=-eq-ok, Status-cases}
use ngraph.Graph.{Edge, Graph, ids}
use ngraph.GraphCycles.{GraphCycles, IsLawful}
use ngraph.Assign.Cluster.{ClusterMap, merge_clusters}
use ngraph.Assign.Contract.{Search, visit, visit_all, round, contract_loop}
use ngraph.Assign.Invariant.{Known, EndsKnown, IsSound, owner-merge_of_member, owners_differ}
use ngraph.Assign.Moves.{
  start, joined, Visited, stays, refuses, merges, visit-Visited, Visited-Reached,
}
use ngraph.Assign.Convex.{Moves-IsSound}

module _ {ℓ} {A : Type ℓ} (p q : A → Bool) where
  count-le : (xs : List A) → ((x : A) → In x xs → q x ≡ true → p x ≡ true) → count q xs ≤ count p xs
  unfolding count
  count-le [] h = omega arith
  count-le (x ∷ xs) h = ground (arith, h x (inl refl), count-le xs (λ y i. h y (inr i)))

  count-lt :
      (xs : List A) (a : A)
      → In a xs
      → p a ≡ true
      → q a ≡ false
      → ((x : A) → In x xs → q x ≡ true → p x ≡ true)
      → count q xs < count p xs
  unfolding count
  count-lt [] a i pa qa h = absurd (i tt)
  count-lt (x ∷ xs) a (inl e) pa qa h = ground (arith, count-le xs (λ y i. h y (inr i)))
  count-lt (x ∷ xs) a (inr i) pa qa h =
      ground (arith, h x (inl refl), count-lt xs a i pa qa (λ y k. h y (inr k)))

-- the number of clusters: each is counted at the node that its pointer is named by
unfoldable pub roots : Graph → ClusterMap → ℕ
roots g m = count (λ v. m.owner v == v) (ids g)

module _ (gc : GraphCycles) (laws : IsLawful gc) (g : Graph) (ends : EndsKnown g) where
  roots-merge :
      (c : gc.State) (m : ClusterMap) (s : IsSound gc g c m) (e : Edge) (i : In e g.edges)
      → joined gc c m e ≡ true
      → roots g (merge_clusters e m) < roots g m
  unfolding roots
  roots-merge c m s e i j =
      let d = m.owner e.dst in
      let own =
        λ (v : ℕ) (k : Known g v). owner-merge_of_member gc laws g c m s e (ends e i) j v k in
      let kd = s.root e.dst (ends e i).1 in
      let ks = s.root e.src (ends e i).0 in
      let differ = owners_differ gc laws g c m s e (ends e i) j in
      count-lt (λ v. m.owner v == v) (λ v. (merge_clusters e m).owner v == v) (ids g) d
        (contains-In (ids g) d kd.0) (rw kd.1 (beq_refl d))
        (ground (
          arith,
          own d kd.0,
          kd.1,
          differ,
          nat_beq_iff (m.owner d) d,
          nat_beq_iff (m.owner e.src) d,
        ))
        (λ v k q. ground (
          arith,
          own v (In-contains (ids g) v k),
          ks.1,
          differ,
          nat_beq_iff (m.owner v) d,
          nat_beq_iff (m.owner v) v,
          nat_beq_iff (m.owner e.src) v,
        ))

  -- what a stretch of visits does to the number of clusters
  record Falls (s t : Search gc.State) : Type 0 where
    sound : IsSound gc g t.cycles t.clusters
    le : roots g t.clusters ≤ roots g s.clusters
    lt : t.changed ≡ true → (s.changed ≡ true) ⊎ (roots g t.clusters < roots g s.clusters)

  Visited-Falls :
      (e : Edge) (i : In e g.edges) (s t : Search gc.State)
      → IsSound gc g s.cycles s.clusters
      → Visited gc g e s t
      → Falls s t
  Visited-Falls e i s t sound v = record {
    sound =
        Moves-IsSound gc laws g ends (Visited-Reached gc g s.cycles s.clusters e s t i start v)
          sound;
    le = le v;
    lt = lt v;
  }
    where
      le : Visited gc g e s t → roots g t.clusters ≤ roots g s.clusters
      le (stays p q r) = rw q (omega arith)
      le (refuses a b p q r) = rw q (omega arith)
      le (merges el j d p q r) = rw q (omega (arith, roots-merge s.cycles s.clusters sound e i j))

      lt :
          Visited gc g e s t
          → t.changed ≡ true
          → (s.changed ≡ true) ⊎ (roots g t.clusters < roots g s.clusters)
      lt (stays p q r) h = inl (sym r ∙ h)
      lt (refuses a b p q r) h = inl (sym r ∙ h)
      lt (merges el j d p q r) h = inr (rw q (roots-merge s.cycles s.clusters sound e i j))

  Falls-trans : (s t u : Search gc.State) → Falls s t → Falls t u → Falls s u
  Falls-trans s t u p q = record {
    sound = q.sound;
    le = omega (arith, p.le, q.le);
    lt = λ h. elim (q.lt h) [
      | inr less ↦ inr (omega (arith, p.le))
      | inl before ↦ elim (p.lt before) [ inl old ↦ inl old | inr less ↦ inr (omega (arith, q.le)) ]
    ];
  }

  visit_all-Falls :
      (collect : Bool) (es : List Edge) (s t : Search gc.State)
      → ((e : Edge) → In e es → In e g.edges)
      → IsSound gc g s.cycles s.clusters
      → visit_all gc g collect es s ≡ ok t
      → Falls s t
  unfolding visit_all
  visit_all-Falls collect [] s t sub sound h =
      ok-eq s t h (record { sound = sound; le = omega arith; lt = inl })
    where
      ok-eq : (a b : Search gc.State) → ok a ≡ ok b → Falls s a → Falls s b
      ok-eq a b e f = subst (Falls s) (cc) f
  visit_all-Falls collect (e ∷ es) s t sub sound h =
      let (s', first, rest) = >>=-eq-ok (visit gc g collect e s) (visit_all gc g collect es) h in
      let one =
        Visited-Falls e (sub e (inl refl)) s s' sound (visit-Visited gc g collect e s s' first) in
      Falls-trans s s' t one (visit_all-Falls collect es s' t (λ x i. sub x (inr i)) one.sound rest)

  -- a round that changes something has merged clusters
  round-Falls :
      (collect : Bool) (s t : Search gc.State)
      → IsSound gc g s.cycles s.clusters
      → round gc g collect s ≡ ok t
      → Falls (record s { changed = false }) t
  unfolding round
  round-Falls collect s t sound h =
      visit_all-Falls collect g.edges (record s { changed = false }) t (λ e i. i) sound h

  abbrev pub rounds_left : Bool → Bool → Search gc.State → ℕ
  rounds_left logging collect s = roots g s.clusters + (if logging && not collect then 1 else 0)

  -- With more fuel than clusters, and one round more if placement is logged, the loop ends.
  pub contract_loop-ne-none :
      (logging : Bool) (fuel : ℕ) (collect : Bool) (s : Search gc.State)
      → IsSound gc g s.cycles s.clusters
      → rounds_left logging collect s < fuel
      → contract_loop gc g logging fuel collect s ≢ ok none
  unfolding contract_loop
  contract_loop-ne-none logging zero collect s sound h = absurd (omega arith)
  contract_loop-ne-none logging (suc fuel) collect s sound h =
      elim (Status-cases (round gc g collect s)) [
        | inr (code, bad) ↦ λ p. ground arith
        | inl (s', e) ↦
            let f = round-Falls collect s s' sound e in
            ground (
              arith,
              f.le,
              f.lt,
              contract_loop-ne-none logging fuel collect s' f.sound,
              contract_loop-ne-none logging fuel true s' f.sound,
            )
      ]
