-- ===== src/Encapsulator/Pass.antt =====
-- EncapsulateClusters of ngraph_bridge/encapsulate_clusters.cc, without its check and dump of the
-- cluster graphs, which NGRAPH_TF_DUMP_CLUSTERS asks for.
use ngraph.Prelude.{String, Bool, List}
use ngraph.Prelude.Int.{ℤ}
use ngraph.Prelude.Status.{Status, ok, ◌>>=◌}
use ngraph.Graph.{DataType, Node, Graph}
use ngraph.ClusterManager.{ClusterManager}
use ngraph.Encapsulator.{Encapsulator, new_encapsulator}
use ngraph.Encapsulator.Analysis.{analysis_pass, get_new_cluster_ids}
use ngraph.Encapsulator.Rewrite.{GraphEdits, rewrite_pass}

module _ (parse_tensor_name : String → String × ℤ) (requested_inputs : Node → List String)
    (input_type : Node → ℤ → DataType) (logging : Bool) (edits : GraphEdits) where
  unfoldable pub encapsulate_clusters :
      ℤ → List (String × String) → Graph → ClusterManager → Status (List ℤ × Encapsulator)
  unfolding new_encapsulator analysis_pass rewrite_pass get_new_cluster_ids
  encapsulate_clusters graph_id device_config g m = do
    e₁ ← analysis_pass parse_tensor_name requested_inputs input_type logging (new_encapsulator g m)
    e₂ ← rewrite_pass edits graph_id device_config e₁
    ids ← get_new_cluster_ids e₂
    ok (ids, e₂)
