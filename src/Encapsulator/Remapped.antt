-- ===== src/Encapsulator/Remapped.antt =====
-- The maps of pass 2: each output that leaves a cluster, and each that enters one, has its place.
use ngraph.Prelude.{
  ℕ, ◌<◌, ◌≡◌, refl, ap, true, false, some, [], ◌∷◌, arith, ◌==◌, nat_eq, pair_eq, pair_beq_iff,
  ◌↔◌, length, length-append, get_elem?, get_elem?-concat, get_elem?-length, lookup, lookup-assign,
  Bool-cases, inl, inr, beq_refl, nat_beq_iff, ◌&&◌,
}
use ngraph.Prelude.Int.{ℤ, int_eq}
use ngraph.Graph.{DataType, Node, Graph, node_at}
use ngraph.ClusterManager.{ClusterManager}
use ngraph.Encapsulator.{Encapsulator, Output, cluster_idx}
use ngraph.Encapsulator.Flow.{Flow, record_retval, record_arg, needs_retval, needs_arg}

-- `index` attributes count the outputs and the inputs; a recorded index is in range, and no other
-- output has it; an input's index is where the input stands. The entries are about the graph's nodes.
pub record IsRemapped (g : Graph) (e : Encapsulator) (retval_index_count arg_index_count : ℤ → ℕ)
    : Type 0 where
  pub retvals : (c : ℤ) → retval_index_count c ≡ length (e.cluster_output_dt_map c)
  pub args : (c : ℤ) → arg_index_count c ≡ length (e.cluster_input_map c)
  pub outputs :
      (o : Output) (c : ℤ) (k : ℕ)
      → lookup o e.output_remap_map ≡ some (c, k)
      → (k < length (e.cluster_output_dt_map c)) × (cluster_idx (node_at g o.0) ≡ c)
  pub apart :
      (o p : Output) (c : ℤ) (k : ℕ)
      → lookup o e.output_remap_map ≡ some (c, k)
      → lookup p e.output_remap_map ≡ some (c, k)
      → o ≡ p
  pub inputs :
      (c : ℤ) (o : Output) (k : ℕ)
      → lookup (c, o) e.input_remap_map ≡ some k
      → (dt : DataType) × (get_elem? (e.cluster_input_map c) k ≡ some (o, dt))

abbrev pub IsGood : Graph → Flow → Type 0
IsGood g f = IsRemapped g f.enc f.retval_index_count f.arg_index_count

-- what is in the maps stays there, and the devices and the graph are not written
pub record Grows (f f' : Flow) : Type 0 where
  pub devices : f'.enc.device_name_map ≡ f.enc.device_name_map
  pub graph : f'.enc.graph ≡ f.enc.graph
  pub rewrite_done : f'.enc.rewrite_done ≡ f.enc.rewrite_done
  pub outputs :
      (o : Output) (x : ℤ × ℕ)
      → lookup o f.enc.output_remap_map ≡ some x
      → lookup o f'.enc.output_remap_map ≡ some x
  pub inputs :
      (o : ℤ × Output) (k : ℕ)
      → lookup o f.enc.input_remap_map ≡ some k
      → lookup o f'.enc.input_remap_map ≡ some k

input_key_iff : (a b : ℤ × Output) → ((a == b) ≡ true) ↔ (a ≡ b)
input_key_iff a b = pair_beq_iff a b

module _ (g : Graph) (src : Node) (slot : ℤ) (dt : DataType) (m : ClusterManager) (f : Flow)
    (r : IsGood g f) where
  record_retval-counts :
      (c : ℤ)
      → (record_retval src slot dt m f).retval_index_count c
        ≡ length ((record_retval src slot dt m f).enc.cluster_output_dt_map c)
  unfolding record_retval
  record_retval-counts c = ground (
    arith,
    r.retvals c,
    r.retvals (cluster_idx src),
    int_eq.beq_iff c (cluster_idx src),
    length-append (f.enc.cluster_output_dt_map (cluster_idx src)) (dt ∷ []),
  )

  record_retval-outputs :
      (node_at g src.id ≡ src)
      → (o : Output) (c : ℤ) (k : ℕ)
      → lookup o (record_retval src slot dt m f).enc.output_remap_map ≡ some (c, k)
      → (k < length ((record_retval src slot dt m f).enc.cluster_output_dt_map c))
        × (cluster_idx (node_at g o.0) ≡ c)
  unfolding record_retval
  record_retval-outputs own o c k h =
      let c₀ = cluster_idx src in
      let outs = f.enc.cluster_output_dt_map c₀ in
      ground (
        arith,
        lookup-assign (src.id, slot) o (c₀, length outs) f.enc.output_remap_map,
        int_eq.beq_iff c c₀,
        length-append outs (dt ∷ []),
        r.outputs o c k,
        pair_eq.beq_iff o (src.id, slot),
        own,
      )

  record_retval-apart :
      (o p : Output) (c : ℤ) (k : ℕ)
      → lookup o (record_retval src slot dt m f).enc.output_remap_map ≡ some (c, k)
      → lookup p (record_retval src slot dt m f).enc.output_remap_map ≡ some (c, k)
      → o ≡ p
  unfolding record_retval
  record_retval-apart o p c k h h' =
      let c₀ = cluster_idx src in
      let outs = f.enc.cluster_output_dt_map c₀ in
      let put =
        λ (q : Output). lookup-assign (src.id, slot) q (c₀, length outs) f.enc.output_remap_map in
      ground (
        arith,
        put o,
        put p,
        pair_eq.beq_iff o (src.id, slot),
        pair_eq.beq_iff p (src.id, slot),
        r.outputs o c k,
        r.outputs p c k,
        r.apart o p c k,
      )

  pub record_retval-IsGood : node_at g src.id ≡ src → IsGood g (record_retval src slot dt m f)
  unfolding record_retval
  record_retval-IsGood own = record {
    retvals = record_retval-counts;
    args = r.args;
    outputs = record_retval-outputs own;
    apart = record_retval-apart;
    inputs = r.inputs;
  }

module _ (g : Graph) (src : Node) (slot : ℤ) (dst : Node) (dt : DataType) (m : ClusterManager)
    (f : Flow) (r : IsGood g f) where
  record_arg-counts :
      (c : ℤ)
      → (record_arg src slot dst dt m f).arg_index_count c
        ≡ length ((record_arg src slot dst dt m f).enc.cluster_input_map c)
  unfolding record_arg
  record_arg-counts c = ground (
    arith,
    r.args c,
    r.args (cluster_idx dst),
    int_eq.beq_iff c (cluster_idx dst),
    length-append (f.enc.cluster_input_map (cluster_idx dst)) (((src.id, slot), dt) ∷ []),
  )

  record_arg-inputs :
      (c : ℤ) (o : Output) (k : ℕ)
      → lookup (c, o) (record_arg src slot dst dt m f).enc.input_remap_map ≡ some k
      → (t : DataType) × (get_elem? ((record_arg src slot dst dt m f).enc.cluster_input_map c) k
          ≡ some (o, t))
  unfolding record_arg
  record_arg-inputs c o k h =
      let c₀ = cluster_idx dst in
      let ins = f.enc.cluster_input_map c₀ in
      let q : ℤ × Output = (c, o) in
      let key : ℤ × Output = (c₀, (src.id, slot)) in
      let put = lookup-assign key q (length ins) f.enc.input_remap_map in
      let at = get_elem?-concat ins ((src.id, slot), dt) k in
      elim (Bool-cases (q == key)) [
        | inl own ↦
            let same : q ≡ key = (input_key_iff q key).0 own in
            let same_c : c ≡ c₀ = ap (λ z. z.0) same in
            let same_o : o ≡ (src.id, slot) = ap (λ z. z.1) same in
            let here : k ≡ length ins = ground (arith, put, own) in
            (dt, ground (arith, at, same_c, same_o, here, beq_refl c, beq_refl k))
        | inr other ↦
            let (t, found) = r.inputs c o k (ground (arith, put)) in
            let old : (k == length ins && c == c₀) ≡ false = ground (
              arith,
              found,
              int_eq.beq_iff c c₀,
              get_elem?-length ins,
              nat_beq_iff k (length ins),
            ) in
            (t, ground (arith, at, found, old, int_eq.beq_iff c c₀))
      ]

  pub record_arg-IsGood : IsGood g (record_arg src slot dst dt m f)
  unfolding record_arg
  record_arg-IsGood = record {
    retvals = r.retvals;
    args = record_arg-counts;
    outputs = r.outputs;
    apart = r.apart;
    inputs = record_arg-inputs;
  }

-- Each write is of a key that is not there.
module _ (src : Node) (slot : ℤ) (dst : Node) (dt : DataType) (m : ClusterManager) (f : Flow) where
  pub record_retval-Grows :
      needs_retval src slot f.enc ≡ true → Grows f (record_retval src slot dt m f)
  unfolding record_retval needs_retval
  record_retval-Grows p =
      let c₀ = cluster_idx src in
      let outs = f.enc.cluster_output_dt_map c₀ in
      record {
        devices = refl;
        graph = refl;
        rewrite_done = refl;
        outputs = λ o x h. ground (
          arith,
          lookup-assign (src.id, slot) o (c₀, length outs) f.enc.output_remap_map,
          pair_eq.beq_iff o (src.id, slot),
        );
        inputs = λ o k h. h;
      }

  pub record_arg-Grows :
      needs_arg src slot dst f.enc ≡ true → Grows f (record_arg src slot dst dt m f)
  unfolding record_arg needs_arg
  record_arg-Grows p =
      let c₀ = cluster_idx dst in
      let n = length (f.enc.cluster_input_map c₀) in
      record {
        devices = refl;
        graph = refl;
        rewrite_done = refl;
        outputs = λ o x h. h;
        inputs = λ o k h. ground (
          arith,
          lookup-assign (c₀, (src.id, slot)) o n f.enc.input_remap_map,
          pair_eq.beq_iff o (c₀, (src.id, slot)),
        );
      }
