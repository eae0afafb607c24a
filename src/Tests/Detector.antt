-- ===== src/Tests/Detector.antt =====
-- A cycle detector for the runs of the tests: its edges go up along a rank that is given.
use ngraph.Prelude.{
  ℕ, ◌+◌, ◌<◌, ◌≡◌, refl, Bool, true, false, not, ◌&&◌, ◌||◌, List, [], ◌∷◌, arith, ◌==◌, nat_eq,
  nat_beq_iff, if◌then◌else◌, ltb, contains, erase, ◌⊎◌,
}
use ngraph.GraphCycles.{GraphCycles, IsLawful, Walk, stop, step, rename}

pub record Ranked : Type 0 where
  pub next : ℕ
  pub pairs : List (ℕ × ℕ)
  pub dead : List ℕ

module _ (rank : ℕ → ℕ) where
  unfoldable pub has_pair : List (ℕ × ℕ) → ℕ → ℕ → Bool
  has_pair [] u v = false
  has_pair ((x, y) ∷ ps) u v = (x == u && (y == v && ltb (rank u) (rank v))) || has_pair ps u v

  -- each edge still goes up, or becomes a loop that is dropped
  unfoldable pub fits : ℕ → ℕ → List (ℕ × ℕ) → Bool
  fits a b [] = true
  fits a b ((x, y) ∷ ps) =
      (not (ltb (rank x) (rank y))
        || (rename a b x == rename a b y || ltb (rank (rename a b x)) (rank (rename a b y))))
      && fits a b ps

  unfoldable pub rename_pairs : ℕ → ℕ → List (ℕ × ℕ) → List (ℕ × ℕ)
  rename_pairs a b [] = []
  rename_pairs a b ((x, y) ∷ ps) = (rename a b x, rename a b y) ∷ rename_pairs a b ps

  unfoldable pub ranked : GraphCycles
  unfolding has_pair fits rename_pairs contains
  ranked = record {
    State = Ranked;
    empty = record { next = 0; pairs = []; dead = [] };
    alive = λ s u. ltb u s.next && not (contains s.dead u);
    has_edge = λ s u v. has_pair s.pairs u v;
    new_node = λ s. (s.next, record s { next = s.next + 1; dead = erase s.next s.dead });
    insert_edge = λ s u v.
        if ltb (rank u) (rank v) then (true, record s { pairs = (u, v) ∷ s.pairs }) else (false, s);
    contract_edge = λ s a b.
        if fits a b s.pairs
        then (true, record s { pairs = rename_pairs a b s.pairs; dead = b ∷ s.dead })
        else (false, s);
  }

  has_pair-lt : (ps : List (ℕ × ℕ)) (u v : ℕ) → has_pair ps u v ≡ true → rank u < rank v
  unfolding has_pair
  has_pair-lt [] u v h = cc
  has_pair-lt ((x, y) ∷ ps) u v h = ground (arith, has_pair-lt ps u v)

  has_pair-rename :
      (a b : ℕ) (ps : List (ℕ × ℕ)) (x y : ℕ)
      → fits a b ps ≡ true
      → has_pair ps x y ≡ true
      → (rename a b x ≡ rename a b y)
        ⊎ (has_pair (rename_pairs a b ps) (rename a b x) (rename a b y) ≡ true)
  unfolding has_pair fits rename_pairs
  has_pair-rename a b [] x y f h = cc
  has_pair-rename a b ((u, v) ∷ ps) x y f h = ground (
    arith,
    has_pair-rename a b ps x y,
    nat_beq_iff u x,
    nat_beq_iff v y,
    nat_beq_iff (rename a b x) (rename a b y),
    nat_beq_iff (rename a b x) (rename a b x),
    nat_beq_iff (rename a b y) (rename a b y),
  )

  Walk-le : (s : ranked.State) {u v : ℕ} → Walk ranked s u v → (rank u < rank v) ⊎ (rank u ≡ rank v)
  unfolding ranked
  Walk-le s (stop u) = ground arith
  Walk-le s (step u {v = x} h p) = ground (arith, Walk-le s p, has_pair-lt s.pairs u x h)

  contains-erase :
      (a b : ℕ) (xs : List ℕ) → contains (erase a xs) b ≡ (not (b == a) && contains xs b)
  unfolding contains erase
  contains-erase a b [] = ground arith
  contains-erase a b (x ∷ xs) =
      ground (arith, contains-erase a b xs, nat_beq_iff a x, nat_beq_iff b x, nat_beq_iff b a)

  pub ranked-IsLawful : IsLawful ranked
  unfolding ranked contains
  ranked-IsLawful = record {
    acyclic = λ s u v h p. ground (arith, Walk-le s p, has_pair-lt s.pairs u v h);
    new_node_fresh = λ s. ground arith;
    new_node_alive = λ s u. ground (arith, nat_beq_iff u s.next, contains-erase s.next u s.dead);
    new_node_edges = λ s u v. refl;
    insert_edge_adds =
        λ s u v h k p. unfold has_pair in ground (arith, nat_beq_iff u u, nat_beq_iff v v);
    insert_edge_keeps = λ s u v x y h k p. unfold has_pair in ground arith;
    insert_edge_alive = λ s u v x h k. ground arith;
    contract_edge_renames = λ s a b x y h p q. ground (arith, has_pair-rename a b s.pairs x y);
    contract_edge_alive = λ s a b x h p. ground (arith, nat_beq_iff x b);
    contract_edge_refused = λ s a b x y h p. ground arith;
    contract_edge_refused_alive = λ s a b x h p. ground arith;
  }
