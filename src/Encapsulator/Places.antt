-- ===== src/Encapsulator/Places.antt =====
-- Pass 2 of the analysis keeps its maps in order, and gives a place to every edge between clusters.
use ngraph.Prelude.{
  ℕ, ◌≡◌, refl, sym, ap, ◌∙◌, subst, true, false, Bool, some, List, [], ◌∷◌, arith, ◌==◌, nat_eq,
  nat_beq_iff, pair_eq, if◌then◌else◌, length, lookup, lookup-assign, beq_refl, Bool-cases,
  Option-cases, inl, inr,
}
use ngraph.Prelude.Int.{ℤ, int_eq}
use ngraph.Graph.{DataType, Node, Graph, node_at, find_node}
use ngraph.Encapsulator.{Output, cluster_idx, is_clustered}
use ngraph.Encapsulator.Flow.{Flow, record_retval, record_arg, needs_retval, needs_arg, count_flow}
use ngraph.Encapsulator.Steps.{Retval, Arg}
use ngraph.Encapsulator.Remapped.{
  IsGood, Grows, record_retval-IsGood, record_retval-Grows, record_arg-IsGood, record_arg-Grows,
}

find_node-id : (ns : List Node) (v : ℕ) → (find_node ns v).id ≡ v
unfolding find_node
find_node-id [] v = refl
find_node-id (n ∷ ns) v = elim (Bool-cases (n.id == v)) [
  | inl p ↦ subst (λ z. (if z then n else find_node ns v).id ≡ v) (sym p) ((nat_beq_iff n.id v).0 p)
  | inr p ↦ subst (λ z. (if z then n else find_node ns v).id ≡ v) (sym p) (find_node-id ns v)
]

pub node_at-id : (g : Graph) (v : ℕ) → (node_at g v).id ≡ v
unfolding node_at
node_at-id g v = find_node-id g.nodes v

node_at-own : (g : Graph) (v : ℕ) → node_at g (node_at g v).id ≡ node_at g v
node_at-own g v = ap (node_at g) (node_at-id g v)

pub Grows-refl : (f : Flow) → Grows f f
Grows-refl f = record {
  devices = refl;
  graph = refl;
  rewrite_done = refl;
  outputs = λ o x h. h;
  inputs = λ o k h. h;
}

pub Grows-trans : {f₁ f₂ f₃ : Flow} → Grows f₁ f₂ → Grows f₂ f₃ → Grows f₁ f₃
Grows-trans a b = record {
  devices = b.devices ∙ a.devices;
  graph = b.graph ∙ a.graph;
  rewrite_done = b.rewrite_done ∙ a.rewrite_done;
  outputs = λ o x h. b.outputs o x (a.outputs o x h);
  inputs = λ o k h. b.inputs o k (a.inputs o k h);
}

-- what a step keeps and adds
pub record Step (g : Graph) (f f' : Flow) : Type 0 where
  pub keeps : IsGood g f → IsGood g f'
  pub grows : Grows f f'

pub Step-trans : {g : Graph} {f₁ f₂ f₃ : Flow} → Step g f₁ f₂ → Step g f₂ f₃ → Step g f₁ f₃
Step-trans a b = record { keeps = λ r. b.keeps (a.keeps r); grows = Grows-trans a.grows b.grows }

pub Retval-Step :
    (g : Graph) (v : ℕ) (slot : ℤ) (dst : Node) (dt : DataType) (f f' : Flow)
    → Retval (node_at g v) slot dt f f'
    → Step g f f'
Retval-Step g v slot dst dt f f' (Retval.there p) = record { keeps = λ r. r; grows = Grows-refl f }
Retval-Step g v slot dst dt f f' (Retval.added m p) = record {
  keeps = λ r. record_retval-IsGood g (node_at g v) slot dt m f r (node_at-own g v);
  grows = record_retval-Grows (node_at g v) slot dst dt m f p;
}

pub Arg-Step :
    (g : Graph) (src : Node) (slot : ℤ) (dst : Node) (dt : DataType) (f f' : Flow)
    → Arg src slot dst dt f f'
    → Step g f f'
Arg-Step g src slot dst dt f f' (Arg.there p) = record { keeps = λ r. r; grows = Grows-refl f }
Arg-Step g src slot dst dt f f' (Arg.added m p) = record {
  keeps = λ r. record_arg-IsGood g src slot dst dt m f r;
  grows = record_arg-Grows src slot dst dt m f p;
}

-- the counters of the log are not in the maps
pub count_flow-Step : (g : Graph) (l a r : Bool) (f : Flow) → Step g f (count_flow l a r f)
unfolding count_flow
count_flow-Step g false a r f = record { keeps = λ r. r; grows = Grows-refl f }
count_flow-Step g true true true f = record {
  keeps = λ r. r;
  grows = record {
    devices = refl;
    graph = refl;
    rewrite_done = refl;
    outputs = λ o x h. h;
    inputs = λ o k h. h;
  };
}
count_flow-Step g true true false f = record {
  keeps = λ r. r;
  grows = record {
    devices = refl;
    graph = refl;
    rewrite_done = refl;
    outputs = λ o x h. h;
    inputs = λ o k h. h;
  };
}
count_flow-Step g true false r f = record {
  keeps = λ r. r;
  grows = record {
    devices = refl;
    graph = refl;
    rewrite_done = refl;
    outputs = λ o x h. h;
    inputs = λ o k h. h;
  };
}

pub Retval-output :
    (src : Node) (slot : ℤ) (dt : DataType) (f f' : Flow)
    → Retval src slot dt f f'
    → is_clustered src ≡ true
    → (c : ℤ × ℕ) × (lookup (src.id, slot) f'.enc.output_remap_map ≡ some c)
unfolding needs_retval record_retval
Retval-output src slot dt f f' (Retval.there p) h =
    elim (Option-cases (lookup (src.id, slot) f.enc.output_remap_map)) [
      | inl out ↦ absurd (ground arith)
      | inr found ↦ found
    ]
Retval-output src slot dt f f' (Retval.added m p) h =
    let c = cluster_idx src in
    let key : Output = (src.id, slot) in
    let n = length (f.enc.cluster_output_dt_map c) in
    ((c, n), ground (arith, lookup-assign key key (c, n) f.enc.output_remap_map, beq_refl key))

pub Arg-input :
    (src : Node) (slot : ℤ) (dst : Node) (dt : DataType) (f f' : Flow)
    → Arg src slot dst dt f f'
    → is_clustered dst ≡ true
    → (k : ℕ) × (lookup (cluster_idx dst, (src.id, slot)) f'.enc.input_remap_map ≡ some k)
unfolding needs_arg record_arg
Arg-input src slot dst dt f f' (Arg.there p) h =
    elim (Option-cases (lookup (cluster_idx dst, (src.id, slot)) f.enc.input_remap_map)) [
      | inl out ↦ absurd (ground arith)
      | inr found ↦ found
    ]
Arg-input src slot dst dt f f' (Arg.added m p) h =
    let c = cluster_idx dst in
    let key : ℤ × Output = (c, (src.id, slot)) in
    let n = length (f.enc.cluster_input_map c) in
    (n, ground (arith, lookup-assign key key n f.enc.input_remap_map, beq_refl key))
