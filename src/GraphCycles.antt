-- ===== src/GraphCycles.antt =====
-- The interface to the incremental cycle detector, a copy of TensorFlow's GraphCycles. Its states
-- are those that its operations reach; the laws are the comments of tf_graphcycles.h.
use ngraph.Prelude.{ℕ, ◌≡◌, Bool, true, false, ◌⊎◌, ◌==◌, nat_eq, if◌then◌else◌}

pub record GraphCycles : Type 1 where
  pub State : Type 0
  pub empty : State
  -- the id was allocated and is not removed
  pub alive : State → ℕ → Bool
  pub has_edge : State → ℕ → ℕ → Bool
  pub new_node : State → ℕ × State
  pub insert_edge : State → ℕ → ℕ → Bool × State
  pub contract_edge : State → ℕ → ℕ → Bool × State

-- a walk along the edges of a state, of any length
pub data Walk (gc : GraphCycles) (s : gc.State) : ℕ → ℕ → Type 0 where
  stop : (u : ℕ) → Walk gc s u u
  step : (u : ℕ) {v w : ℕ} → gc.has_edge s u v ≡ true → Walk gc s v w → Walk gc s u w

-- the id that stands for `u` once `b` is merged into `a`
abbrev pub rename : ℕ → ℕ → ℕ → ℕ
rename a b u = if u == b then a else u

pub record IsLawful (gc : GraphCycles) : Type 0 where
  -- "It is not possible to introduce a cycle"
  pub acyclic : (s : gc.State) (u v : ℕ) → gc.has_edge s u v ≡ true → Walk gc s v u → ⊥
  -- "Allocate an unused node id and return it"
  pub new_node_fresh : (s : gc.State) → gc.alive s (gc.new_node s).0 ≡ false
  pub new_node_alive :
      (s : gc.State) (u : ℕ)
      → gc.alive (gc.new_node s).1 u ≡ (if u == (gc.new_node s).0 then true else gc.alive s u)
  pub new_node_edges :
      (s : gc.State) (u v : ℕ) → gc.has_edge (gc.new_node s).1 u v ≡ gc.has_edge s u v
  -- "Otherwise add the edge and return true"
  pub insert_edge_adds :
      (s : gc.State) (u v : ℕ)
      → gc.alive s u ≡ true
      → gc.alive s v ≡ true
      → (gc.insert_edge s u v).0 ≡ true
      → gc.has_edge (gc.insert_edge s u v).1 u v ≡ true
  pub insert_edge_keeps :
      (s : gc.State) (u v x y : ℕ)
      → gc.alive s u ≡ true
      → gc.alive s v ≡ true
      → gc.has_edge s x y ≡ true
      → gc.has_edge (gc.insert_edge s u v).1 x y ≡ true
  pub insert_edge_alive :
      (s : gc.State) (u v x : ℕ)
      → gc.alive s u ≡ true
      → gc.alive s v ≡ true
      → gc.alive (gc.insert_edge s u v).1 x ≡ gc.alive s x
  -- "'b' is removed from the graph, and edges to/from 'b' are replaced with edges to/from 'a'"
  pub contract_edge_renames :
      (s : gc.State) (a b x y : ℕ)
      → gc.has_edge s a b ≡ true
      → (gc.contract_edge s a b).0 ≡ true
      → gc.has_edge s x y ≡ true
      → (rename a b x ≡ rename a b y)
        ⊎ (gc.has_edge (gc.contract_edge s a b).1 (rename a b x) (rename a b y) ≡ true)
  pub contract_edge_alive :
      (s : gc.State) (a b x : ℕ)
      → gc.has_edge s a b ≡ true
      → (gc.contract_edge s a b).0 ≡ true
      → gc.alive (gc.contract_edge s a b).1 x ≡ (if x == b then false else gc.alive s x)
  -- "If contracting the edge would create a cycle, does nothing and returns false"
  pub contract_edge_refused :
      (s : gc.State) (a b x y : ℕ)
      → gc.has_edge s a b ≡ true
      → (gc.contract_edge s a b).0 ≡ false
      → gc.has_edge (gc.contract_edge s a b).1 x y ≡ gc.has_edge s x y
  pub contract_edge_refused_alive :
      (s : gc.State) (a b x : ℕ)
      → gc.has_edge s a b ≡ true
      → (gc.contract_edge s a b).0 ≡ false
      → gc.alive (gc.contract_edge s a b).1 x ≡ gc.alive s x
