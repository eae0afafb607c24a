-- ===== src/Encapsulator/Analysis.antt =====
-- Encapsulator::AnalysisPass and GetNewClusterIDs of ngraph_bridge/encapsulate_clusters.cc. What a
-- failed pass has written so far is dropped with the error.
use ngraph.Prelude.{
  ℕ, ◌+◌, String, Bool, true, false, not, ◌&&◌, List, [], ◌∷◌, ◌==◌, nat_eq, insert, length,
}
use ngraph.Prelude.Int.{ℤ, int_eq}
use ngraph.Prelude.Status.{Status, ok, err, internal, ◌>>=◌}
use ngraph.Graph.{DataType, Node, Graph}
use ngraph.Encapsulator.{Encapsulator, op_nodes}
use ngraph.Encapsulator.Flow.{Flow, new_flow, populate_devices, visit_edges}
use ngraph.Encapsulator.Copy.{copy_nodes}

abbrev pub computed_edge_number : Flow → ℕ
computed_edge_number f =
    f.count_arg + f.count_retval + f.count_both_arg_retval + f.count_free + f.count_encapsulated

-- the test of the summary, against the number of edges of the graph
unfoldable pub numbers_match : Graph → Flow → Bool
numbers_match g f = computed_edge_number f == f.count_tot && f.count_tot == length g.edges

module _ (parse_tensor_name : String → String × ℤ) (requested_inputs : Node → List String)
    (input_type : Node → ℤ → DataType) (logging : Bool) where
  -- what follows pass 2: the test of the summary, and pass 5
  unfoldable pub finish_analysis : Graph → Flow → Status Encapsulator
  unfolding numbers_match copy_nodes op_nodes
  finish_analysis g f = elim (logging && not (numbers_match g f)) [
    | true ↦ err internal
    | false ↦ do
      m ←
          copy_nodes parse_tensor_name requested_inputs g f.enc.input_rename_map (op_nodes g)
            f.enc.manager
      ok (record (f.enc) { analysis_done = true; manager = m })
  ]

  -- passes 2 and 5, with the devices that pass 1 has found
  unfoldable pub analyse : Encapsulator → List (ℤ × String) → Status Encapsulator
  unfolding new_flow visit_edges finish_analysis
  analyse e devices = do
    f ←
        visit_edges input_type logging e.graph e.graph.edges
          (new_flow (record e { device_name_map = devices }))
    finish_analysis e.graph f

  unfoldable pub analysis_pass : Encapsulator → Status Encapsulator
  unfolding op_nodes populate_devices analyse
  analysis_pass e = elim e.rewrite_done [
    | true ↦ err internal
    | false ↦ elim e.analysis_done [
      | true ↦ err internal
      | false ↦ populate_devices (op_nodes e.graph) e.device_name_map >>= analyse e
    ]
  ]

-- the set of the keys of the device map
abbrev pub collect_ids {ℓ} : {V : Type ℓ} → List (ℤ × V) → List ℤ → List ℤ
collect_ids [] s = s
collect_ids ((c, v) ∷ m) s = collect_ids m (insert c s)

unfoldable pub get_new_cluster_ids : Encapsulator → Status (List ℤ)
get_new_cluster_ids e = elim e.analysis_done [
  | false ↦ err internal
  | true ↦ ok (collect_ids e.device_name_map [])
]
