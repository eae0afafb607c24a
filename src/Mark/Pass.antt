-- ===== src/Mark/Pass.antt =====
-- MarkForClustering of ngraph_bridge/mark_for_clustering.cc. Its static variables are a state that
-- the calls pass on, also when they fail; the histograms that it only prints are left out.
use ngraph.Prelude.{
  Option, String, Bool, true, false, not, ◌&&◌, ◌||◌, none, some, List, [], ◌∷◌, ◌==◌, ℕ, string_eq,
  if◌then◌else◌, lookup, remove, contains,
}
use ngraph.Prelude.Int.{ℤ}
use ngraph.Prelude.Status.{Status, ok, err, internal, ◌>>=◌}
use ngraph.Graph.{Node, Graph, ids, is_op, flag, add_attr, node_at, update_node}
use ngraph.Mark.Types.{type_constraint_ok}
use ngraph.Mark.Confirm.{Confirmation, get_confirmation_map, confirmation_ok}
use ngraph.Mark.Statics.{get_attribute_setters, set_static_inputs}

pub record Statics : Type 0 where
  pub confirmation_function_map : List (String × Confirmation)
  pub disabled_ops_set : List String
  pub initialized : Bool

-- before the first call
abbrev pub fresh : Statics
fresh = record {
  confirmation_function_map = get_confirmation_map;
  disabled_ops_set = [];
  initialized = false;
}

-- A `std::set` is the list of its elements in order, so sets are equal if their lists are.
unfoldable pub same_set : List String → List String → Bool
same_set [] [] = true
same_set [] (y ∷ ys) = false
same_set (x ∷ xs) [] = false
same_set (x ∷ xs) (y ∷ ys) = x == y && same_set xs ys

-- the loop over the disabled ops: an op that has no function ends it, and what was erased stays so
unfoldable pub disable :
    List String → List (String × Confirmation) → Status (Unit {0}) × List (String × Confirmation)
unfolding lookup remove
disable [] m = (ok tt, m)
disable (op ∷ ops) m =
    let rest = disable ops (remove op m) in
    elim (lookup op m) [ none ↦ (err internal, m) | some c ↦ rest ]

unfoldable pub refresh : List String → Statics → Status (Unit {0}) × Statics
unfolding disable same_set
refresh current s =
    let changed = not (same_set current s.disabled_ops_set) in
    let m =
      if not s.initialized || changed then get_confirmation_map else s.confirmation_function_map in
    let (status, m') = disable current m in
    if changed
    then (
      status,
      record { confirmation_function_map = m'; disabled_ops_set = current; initialized = true },
    )
    else (ok tt, record s { confirmation_function_map = m; initialized = true })

-- the call of the setter that was found for an op type, if one was
unfoldable pub set_attributes : Option (List ℤ) → Node → Node
set_attributes (some indices) n = set_static_inputs indices n
set_attributes none n = n

unfoldable pub mark_node : Node → Node
unfolding set_attributes
mark_node n =
    set_attributes (lookup n.type_string get_attribute_setters)
      (add_attr n "_ngraph_marked_for_clustering" (flag true))

unfoldable pub mark_nodes : List ℕ → Graph → Graph
unfolding update_node mark_node
mark_nodes [] g = g
mark_nodes (v ∷ vs) g = mark_nodes vs (update_node g v mark_node)

module _ (is_supported : String → Bool) (skip_these_nodes : List String) where
  unfoldable pub check_if_output_node : Node → Bool
  unfolding contains
  check_if_output_node n = contains skip_these_nodes n.name

  unfoldable pub ngraph_placement_requested : Node → Bool
  ngraph_placement_requested n = true

  -- the body of `do … while (false)`; `is_supported` is Backend::IsSupported
  unfoldable pub accepts : List (String × Confirmation) → Node → Status Bool
  unfolding check_if_output_node ngraph_placement_requested
  accepts m n =
      if check_if_output_node n
      then ok false
      else if not (ngraph_placement_requested n)
      then ok false
      else do
        confirmed ← confirmation_ok m n
        ok (confirmed && (type_constraint_ok n && is_supported n.type_string))

  -- `nodes_marked_for_clustering` after the loop over the nodes
  unfoldable pub select : List (String × Confirmation) → Graph → List ℕ → Status (List ℕ)
  unfolding accepts node_at is_op
  select m g [] = ok []
  select m g (v ∷ vs) =
      if is_op v
      then (do
        mark_for_clustering ← accepts m (node_at g v)
        rest ← select m g vs
        ok (if mark_for_clustering then v ∷ rest else rest))
      else select m g vs

  -- `current` is api::GetDisabledOps
  unfoldable pub mark_for_clustering : List String → Graph → Statics → Status Graph × Statics
  unfolding refresh select mark_nodes
  mark_for_clustering current g s =
      let (status, s') = refresh current s in
      (
        do
          _ ← status
          marked ← select s'.confirmation_function_map g (ids g)
          ok (mark_nodes marked g),
        s',
      )
