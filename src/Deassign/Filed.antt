-- ===== src/Deassign/Filed.antt =====
-- The cluster map of the deassignment pass: an entry for each cluster, with its nodes.
use ngraph.Prelude.{
  ℕ, ◌≡◌, refl, ◌∙◌, subst, Bool, true, false, ◌&&◌, ◌||◌, none, some, List, [], ◌∷◌, ◌==◌, nat_eq,
  string_eq, nat_beq_iff, contains, insert, contains-insert, lookup, assign, lookup-assign, arith,
  Bool-cases, Option-cases, inl, inr,
}
use ngraph.Prelude.Int.{ℤ, int_eq}
use ngraph.Graph.{Graph}
use ngraph.Assign.Invariant.{Known}
use ngraph.Assign.Tagged.{cluster_at}
use ngraph.Deassign.{or_empty, cluster_members}

-- a list of nodes without repetition
abbrev pub NoRepeat : List ℕ → Type 0
NoRepeat [] = Unit
NoRepeat (x ∷ xs) = (contains xs x ≡ false) × NoRepeat xs

insert-NoRepeat : (v : ℕ) (xs : List ℕ) → NoRepeat xs → NoRepeat (insert v xs)
unfolding insert contains
insert-NoRepeat v [] h = (refl, tt)
insert-NoRepeat v (x ∷ xs) h = elim (Bool-cases (v == x)) [
  | inl same ↦ rw same h
  | inr other ↦ rw other (
    ground (arith, contains-insert v x xs, nat_beq_iff v x, nat_beq_iff x v),
    insert-NoRepeat v xs h.1,
  )
]

abbrev pub belongs : Graph → ℤ → ℕ → Bool
belongs g c w = elim (cluster_at g w) [ none ↦ false | some d ↦ d == c ]

module _ (g : Graph) where
  -- the entries of the cluster map have different keys, and each holds nodes of its cluster once
  abbrev pub IsFiled : List (ℤ × List ℕ) → Type 0
  IsFiled [] = Unit
  IsFiled ((c, ns) ∷ m) =
      (lookup c m ≡ none)
      × NoRepeat ns
      × ((v : ℕ) → contains ns v ≡ true → Known g v × (cluster_at g v ≡ some c))
      × IsFiled m

  pub filed-NoRepeat :
      (m : List (ℤ × List ℕ)) (c : ℤ) → IsFiled m → NoRepeat (or_empty (lookup c m))
  unfolding lookup
  filed-NoRepeat [] c f = tt
  filed-NoRepeat ((j, ns) ∷ m) c f = elim (Bool-cases (c == j)) [
    | inl same ↦ rw same f.1
    | inr other ↦ rw other (filed-NoRepeat m c f.3)
  ]

  filed-members :
      (m : List (ℤ × List ℕ)) (c : ℤ) (v : ℕ)
      → IsFiled m
      → contains (or_empty (lookup c m)) v ≡ true
      → Known g v × (cluster_at g v ≡ some c)
  unfolding lookup contains
  filed-members [] c v f i = cc
  filed-members ((j, ns) ∷ m) c v f i =
      ground (arith, f.2 v, filed-members m c v f.3, int_eq.beq_iff c j)

  IsFiled-assign :
      (c : ℤ) (ns : List ℕ) (m : List (ℤ × List ℕ))
      → NoRepeat ns
      → ((v : ℕ) → contains ns v ≡ true → Known g v × (cluster_at g v ≡ some c))
      → IsFiled m
      → IsFiled (assign c ns m)
  unfolding assign lookup
  IsFiled-assign c ns [] n h f = (refl, n, h, tt)
  IsFiled-assign c ns ((j, ns') ∷ m) n h f = elim (Bool-cases (c == j)) [
    | inl same ↦ rw same (f.0, n, λ w i. ground (arith, h w i, int_eq.beq_iff c j), f.3)
    | inr other ↦ rw other (
      (lookup-assign c j ns m ∙ ground (arith, f.0, int_eq.beq_iff c j, int_eq.beq_iff j c)),
      f.1,
      f.2,
      IsFiled-assign c ns m n h f.3,
    )
  ]

  IsFiled-insert :
      (v : ℕ) (c : ℤ) (m : List (ℤ × List ℕ))
      → Known g v
      → cluster_at g v ≡ some c
      → IsFiled m
      → IsFiled (assign c (insert v (or_empty (lookup c m))) m)
  IsFiled-insert v c m k e f =
      let ns = or_empty (lookup c m) in
      IsFiled-assign c (insert v ns) m (insert-NoRepeat v ns (filed-NoRepeat m c f))
        (λ w i. ground (arith, contains-insert v w ns, nat_beq_iff w v, filed-members m c w f)) f

  cluster_members-none :
      (v : ℕ) (vs : List ℕ) (m : List (ℤ × List ℕ))
      → cluster_at g v ≡ none
      → cluster_members g vs m ≡ cluster_members g (v ∷ vs) m
  unfolding cluster_members
  cluster_members-none v vs m e = ground arith

  cluster_members-some :
      (v : ℕ) (c : ℤ) (vs : List ℕ) (m : List (ℤ × List ℕ))
      → cluster_at g v ≡ some c
      → cluster_members g vs (assign c (insert v (or_empty (lookup c m))) m)
        ≡ cluster_members g (v ∷ vs) m
  unfolding cluster_members
  cluster_members-some v c vs m e = ground arith

  pub cluster_members-IsFiled :
      (vs : List ℕ) (m : List (ℤ × List ℕ))
      → ((v : ℕ) → contains vs v ≡ true → Known g v)
      → IsFiled m
      → IsFiled (cluster_members g vs m)
  unfolding cluster_members contains
  cluster_members-IsFiled [] m sub f = f
  cluster_members-IsFiled (v ∷ vs) m sub f =
      let sub' = λ (w : ℕ) (i : contains vs w ≡ true). sub w (ground arith) in
      elim (Option-cases (cluster_at g v)) [
        | inl none' ↦
            subst IsFiled (cluster_members-none v vs m none') (cluster_members-IsFiled vs m sub' f)
        | inr (c, e) ↦ subst IsFiled (cluster_members-some v c vs m e) (
            cluster_members-IsFiled vs (assign c (insert v (or_empty (lookup c m))) m) sub'
              (IsFiled-insert v c m (sub v (ground (arith, nat_beq_iff v v))) e f))
      ]

  pub contains-cluster_members :
      (vs : List ℕ) (m : List (ℤ × List ℕ)) (c : ℤ) (w : ℕ)
      → contains (or_empty (lookup c (cluster_members g vs m))) w
        ≡ (contains (or_empty (lookup c m)) w || (contains vs w && belongs g c w))
  unfolding cluster_members contains
  contains-cluster_members [] m c w = ground arith
  contains-cluster_members (v ∷ vs) m c w = elim (Option-cases (cluster_at g v)) [
    | inl none' ↦ ground (arith, contains-cluster_members vs m c w, nat_beq_iff w v)
    | inr (d, e) ↦ ground (
      arith,
      contains-cluster_members vs (assign d (insert v (or_empty (lookup d m))) m) c w,
      lookup-assign d c (insert v (or_empty (lookup d m))) m,
      contains-insert v w (or_empty (lookup d m)),
      nat_beq_iff w v,
      int_eq.beq_iff c d,
      int_eq.beq_iff d c,
    )
  ]
