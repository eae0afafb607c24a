-- ===== src/Assign/Contract.antt =====
-- The do-while loop of AssignClusters, ngraph_bridge/assign_clusters.cc: edges are contracted
-- until a round changes nothing, and one last round collects reasons if placement is logged.
use ngraph.Prelude.{
  ℕ, zero, suc, Bool, true, false, not, ◌&&◌, ◌||◌, Option, none, some, List, [], ◌∷◌, ◌++◌, ◌==◌,
  nat_eq, string_eq, if◌then◌else◌,
}
use ngraph.Prelude.Status.{Status, ok, ◌>>=◌}
use ngraph.Graph.{Edge, Graph, is_op, node_at}
use ngraph.GraphCycles.{GraphCycles}
use ngraph.Mark.Access.{node_is_marked_for_clustering, input_is_static}
use ngraph.Assign.Cluster.{ClusterMap, index_of, merge_clusters}
use ngraph.Assign.Deadness.{can_contract_edge_deadness_check}

pub data Reason : Type 0 where
  not_an_op unsupported deadness same_cluster static_input path_exists : Reason

-- `cluster_separation_reason` maps a pair of indices to a vector; its entries are listed here in
-- the order in which they are pushed.
pub record Search (C : Type 0) : Type 0 where
  pub cycles : C
  pub clusters : ClusterMap
  pub reasons : List ((ℕ × ℕ) × Reason)
  pub changed : Bool

abbrev pub note : {C : Type 0} → Bool → Edge → Reason → Search C → Search C
note collect e r s =
    if collect
    then record s {
      reasons = s.reasons ++ ((index_of s.clusters e.src, index_of s.clusters e.dst), r) ∷ [];
    }
    else s

module _ (gc : GraphCycles) (g : Graph) (collect : Bool) where
  unfoldable pub refusal : Edge → Search gc.State → Reason
  unfolding input_is_static node_at
  refusal e s =
      if index_of s.clusters e.src == index_of s.clusters e.dst
      then same_cluster
      else if not ((node_at g e.src).type_string == "Const")
          && input_is_static (node_at g e.dst) e.dst_input
      then static_input
      else path_exists

  -- `gc.HasEdge(…) && gc.ContractEdge(…)` and its two branches
  unfoldable pub try_contract : Edge → Search gc.State → Search gc.State
  try_contract e s =
      let src_index = index_of s.clusters e.src in
      let dst_index = index_of s.clusters e.dst in
      if gc.has_edge s.cycles src_index dst_index
      then (let (contracted, cycles') = gc.contract_edge s.cycles src_index dst_index in
          if contracted
          then record s { cycles = cycles'; clusters = merge_clusters e s.clusters; changed = true }
          else note collect e (refusal e s) (record s { cycles = cycles' }))
      else note collect e (refusal e s) s

  unfoldable pub visit : Edge → Search gc.State → Status (Search gc.State)
  visit e s =
      if not (is_op e.src) || not (is_op e.dst)
      then ok (note collect e not_an_op s)
      else if not (node_is_marked_for_clustering (node_at g e.src))
          || not (node_is_marked_for_clustering (node_at g e.dst))
      then ok (note collect e unsupported s)
      else do
        is_deadness_ok ← can_contract_edge_deadness_check g s.clusters e
        ok (if is_deadness_ok then try_contract e s else note collect e deadness s)

  unfoldable pub visit_all : List Edge → Search gc.State → Status (Search gc.State)
  unfolding visit
  visit_all [] s = ok s
  visit_all (e ∷ es) s = do s' ← visit e s; visit_all es s'

  unfoldable pub round : Search gc.State → Status (Search gc.State)
  unfolding visit_all
  round s = visit_all g.edges (record s { changed = false })

-- `none`: the fuel ran out
unfoldable pub contract_loop :
    (gc : GraphCycles) (g : Graph) (logging : Bool)
    → ℕ
    → Bool
    → Search gc.State
    → Status (Option (Search gc.State))
unfolding round
contract_loop gc g logging zero collect s = ok none
contract_loop gc g logging (suc fuel) collect s = do
  s' ← round gc g collect s
  let again = contract_loop gc g logging fuel collect s'
  let last = contract_loop gc g logging fuel true s'
  if s'.changed then again else if logging && not collect then last else ok (some s')
