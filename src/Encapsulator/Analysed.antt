-- ===== src/Encapsulator/Analysed.antt =====
-- What a successful AnalysisPass has established.
use ngraph.Prelude.{
  ℕ, ◌<◌, String, ◌≡◌, refl, sym, ap, ◌∙◌, subst, true, false, Bool, some, List, [], arith, nat_eq,
  string_eq, pair_eq, not, ◌&&◌, length, get_elem?, lookup, Bool-cases, inl, inr, In,
}
use ngraph.Prelude.Int.{ℤ, int_eq}
use ngraph.Prelude.Status.{ok, >>=-eq-ok}
use ngraph.Graph.{DataType, Node, Edge, Graph, node_at}
use ngraph.ClusterManager.{ClusterManager}
use ngraph.Assign.Tag.{get_node_cluster}
use ngraph.Encapsulator.{
  Encapsulator, Output, new_encapsulator, cluster_idx, is_clustered, op_nodes,
}
use ngraph.Encapsulator.Flow.{Flow, new_flow, populate_devices, crosses, visit_edges}
use ngraph.Encapsulator.Analysis.{analysis_pass, analyse, finish_analysis, numbers_match}
use ngraph.Encapsulator.Copy.{copy_nodes}
use ngraph.Encapsulator.Steps.{ok-of_bind}
use ngraph.Encapsulator.Remapped.{IsGood}
use ngraph.Encapsulator.Devices.{populate_devices-device}
use ngraph.Encapsulator.Placed.{IsFiled, visit_edges-Step}

module _ (parse : String → String × ℤ) (requested : Node → List String)
    (input_type : Node → ℤ → DataType) (logging : Bool) where
  finish_analysis-ok :
      (g : Graph) (f : Flow) (e : Encapsulator)
      → finish_analysis parse requested input_type logging g f ≡ ok e
      → (m : ClusterManager) × (record (f.enc) { analysis_done = true; manager = m } ≡ e)
  unfolding finish_analysis
  finish_analysis-ok g f e h = elim (Bool-cases (logging && not (numbers_match g f))) [
    | inl bad ↦ absurd (ground arith)
    | inr good ↦
        ok-of_bind (copy_nodes parse requested g f.enc.input_rename_map (op_nodes g) f.enc.manager)
          (λ m. record (f.enc) { analysis_done = true; manager = m }) (ground arith)
  ]

  -- the passes of an analysis that succeeds
  pub analysis_pass-passes :
      (e e' : Encapsulator)
      → analysis_pass parse requested input_type logging e ≡ ok e'
      → (devices : List (ℤ × String)) × (f : Flow) × (m : ClusterManager) × (populate_devices
            (op_nodes e.graph)
            e.device_name_map
          ≡ ok devices)
        × (visit_edges input_type logging e.graph e.graph.edges
              (new_flow (record e { device_name_map = devices }))
            ≡ ok f)
        × (record (f.enc) { analysis_done = true; manager = m } ≡ e')
  unfolding analysis_pass analyse
  analysis_pass-passes e e' h = elim (Bool-cases e.rewrite_done) [
    | inl bad ↦ absurd (ground arith)
    | inr fresh ↦ elim (Bool-cases e.analysis_done) [
      | inl bad ↦ absurd (ground arith)
      | inr first ↦
          let (devices, p, h₁) =
            >>=-eq-ok (populate_devices (op_nodes e.graph) e.device_name_map)
              (analyse parse requested input_type logging e) {b = e'} (ground arith) in
          let (f, q, h₂) =
            >>=-eq-ok
              (visit_edges input_type logging e.graph e.graph.edges
                (new_flow (record e { device_name_map = devices })))
              (finish_analysis parse requested input_type logging e.graph) h₁ in
          let (m, r) = finish_analysis-ok e.graph f e' h₂ in (devices, f, m, p, q, r)
    ]
  ]

  pub analysis_pass-flags :
      (e e' : Encapsulator)
      → analysis_pass parse requested input_type logging e ≡ ok e'
      → (e.analysis_done ≡ false) × (e.rewrite_done ≡ false)
  unfolding analysis_pass
  analysis_pass-flags e e' h = ground arith

  -- the maps of a new encapsulator are empty, and so in order
  pub new_flow-IsGood :
      (g : Graph) (m : ClusterManager) (devices : List (ℤ × String))
      → IsGood g (new_flow (record (new_encapsulator g m) { device_name_map = devices }))
  unfolding new_flow new_encapsulator lookup
  new_flow-IsGood g m devices = record {
    retvals = λ c. refl;
    args = λ c. refl;
    outputs = λ o c k h. absurd (ground arith);
    apart = λ o p c k h h'. absurd (ground arith);
    inputs = λ c o k h. absurd (ground arith);
  }

  module _ (g : Graph) (m : ClusterManager) (e : Encapsulator)
      (h : analysis_pass parse requested input_type logging (new_encapsulator g m) ≡ ok e) where
    analysis_pass-facts :
        (f : Flow) × (m' : ClusterManager) × (record (f.enc) { analysis_done = true; manager = m' }
          ≡ e)
        × IsGood g f
        × ((x : Edge) → In x g.edges → crosses g x ≡ true → IsFiled g x f.enc)
        × (populate_devices (op_nodes g) [] ≡ ok f.enc.device_name_map)
    unfolding new_encapsulator new_flow
    analysis_pass-facts =
        let (devices, f, m', p, q, r) = analysis_pass-passes (new_encapsulator g m) e h in
        let steps =
          visit_edges-Step input_type logging g g.edges
            (new_flow (record (new_encapsulator g m) { device_name_map = devices })) f q in
        (
          f,
          m',
          r,
          steps.0.keeps (new_flow-IsGood g m devices),
          steps.1,
          p ∙ ap ok (sym steps.0.grows.devices),
        )

    -- When the analysis of a graph succeeds, each data edge between ops that leaves a cluster has an
    -- entry for its source's output, with the source's cluster and an index that is in the range of
    -- the cluster's outputs.
    pub analysis_pass-output :
        (x : Edge)
        → In x g.edges
        → crosses g x ≡ true
        → is_clustered (node_at g x.src) ≡ true
        → (k : ℕ) × (lookup (x.src, x.src_output) e.output_remap_map
            ≡ some (cluster_idx (node_at g x.src), k))
          × (k < length (e.cluster_output_dt_map (cluster_idx (node_at g x.src))))
    analysis_pass-output x i c own =
        let (f, m', r, good, filed, _) = analysis_pass-facts in
        let ((d, k), found) = (filed x i c).output own in
        let (bound, same) = good.outputs (x.src, x.src_output) d k found in
        subst
          (λ z.
            (k : ℕ) × (lookup (x.src, x.src_output) z.output_remap_map
              ≡ some (cluster_idx (node_at g x.src), k))
            × (k < length (z.cluster_output_dt_map (cluster_idx (node_at g x.src)))))
          r
          (
            k,
            subst (λ c. lookup (x.src, x.src_output) f.enc.output_remap_map ≡ some (c, k))
                (sym same) found,
            subst (λ c. k < length (f.enc.cluster_output_dt_map c)) (sym same) bound,
          )

    -- When the analysis of a graph succeeds, each data edge between ops that enters a cluster has an
    -- entry for the cluster and the source's output, and the recorded index is where the cluster's
    -- list of inputs has that output.
    pub analysis_pass-input :
        (x : Edge)
        → In x g.edges
        → crosses g x ≡ true
        → is_clustered (node_at g x.dst) ≡ true
        → (k : ℕ) × (dt : DataType) × (lookup
              (cluster_idx (node_at g x.dst), (x.src, x.src_output))
              e.input_remap_map
            ≡ some k)
          × (get_elem? (e.cluster_input_map (cluster_idx (node_at g x.dst))) k
              ≡ some ((x.src, x.src_output), dt))
    analysis_pass-input x i c own =
        let (f, m', r, good, filed, _) = analysis_pass-facts in
        let (k, found) = (filed x i c).input own in
        let (dt, at) = good.inputs (cluster_idx (node_at g x.dst)) (x.src, x.src_output) k found in
        subst
          (λ z.
            (k : ℕ) × (dt : DataType) × (lookup
                (cluster_idx (node_at g x.dst), (x.src, x.src_output)) z.input_remap_map
              ≡ some k)
            × (get_elem? (z.cluster_input_map (cluster_idx (node_at g x.dst))) k
                ≡ some ((x.src, x.src_output), dt)))
          r (k, dt, found, at)

    -- When the analysis of a graph succeeds, no two outputs of nodes have one place: outputs with the
    -- same cluster and index are one.
    pub analysis_pass-apart :
        (o p : Output) (c : ℤ) (k : ℕ)
        → lookup o e.output_remap_map ≡ some (c, k)
        → lookup p e.output_remap_map ≡ some (c, k)
        → o ≡ p
    analysis_pass-apart o p c k =
        let (f, m', r, good, _, _) = analysis_pass-facts in
        subst
          (λ z.
            lookup o z.output_remap_map ≡ some (c, k)
            → lookup p z.output_remap_map ≡ some (c, k)
            → o ≡ p)
          r (good.apart o p c k)

    -- When the analysis of a graph succeeds, all nodes of a cluster are on one device, which is the
    -- one recorded for the cluster.
    pub analysis_pass-device :
        (n : Node) (c : ℤ)
        → In n (op_nodes g)
        → get_node_cluster n ≡ some c
        → lookup c e.device_name_map ≡ some n.device
    analysis_pass-device n c i own =
        let (f, m', r, _, _, p) = analysis_pass-facts in
        subst (λ z. lookup c z.device_name_map ≡ some n.device) r
          (populate_devices-device (op_nodes g) [] f.enc.device_name_map n c p i own)
