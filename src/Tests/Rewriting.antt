-- ===== src/Tests/Rewriting.antt =====
-- Runs of the rewriting of the encapsulation pass, with edits of a graph that have the laws.
use ngraph.Prelude.{
  ℕ, suc, ◌+◌, ◌<◌, String, ◌≡◌, refl, true, false, not, none, some, List, [], ◌∷◌, ◌++◌, arith,
  ◌==◌, nat_eq, string_eq, pair_eq, lookup, filter, In, In-append_cases, In-filter, inl, subst, inr,
  ap, sym, ◌∙◌, insert, assign, decimal,
}
use ngraph.Prelude.Int.{ℤ, pos, int_eq}
use ngraph.Prelude.Status.{Status, ok, err, internal, ◌>>=◌}
use ngraph.Graph.{Node, is_op, is_control_edge, node_at, find_node, get_int, update_node}
use ngraph.ClusterManager.{get_cluster_graph}
use ngraph.Mark.Arguments.{graph_static_inputs, static_arguments}
use ngraph.Assign.Tag.{get_node_cluster}
use ngraph.Encapsulator.{Encapsulator, new_encapsulator, cluster_idx, is_clustered, op_nodes}
use ngraph.Encapsulator.Flow.{
  new_flow, populate_devices, needs_retval, needs_arg, add_node, add_retval, add_arg, record_retval,
  record_arg, retval_def, arg_def, count_flow, visit_flow, visit_edge, visit_edges,
}
use ngraph.Encapsulator.Copy.{
  tensor_name, keeps_control, place_input, gather_inputs, input_names, rename_input, rename_inputs,
  copy_node, copy_nodes,
}
use ngraph.Encapsulator.Analysis.{
  analysis_pass, analyse, finish_analysis, numbers_match, get_new_cluster_ids,
}
use ngraph.Encapsulator.Steps.{ok_inj}
use ngraph.Encapsulator.Rewrite.{
  NodeSpec, GraphEdits, encap_node_name, cluster_graph_at, encap_spec, set_device, install,
  static_inputs_of, create_encapsulate, create_encapsulates, control_end, remap_edge, remap_edges,
  remove_clustered, finish_rewrite, rewrite_pass,
}
use ngraph.Encapsulator.Protocol.{
  fresh, analysis, ids, rewrite, next, follow, phase, call, run, call-refused, run-follow,
}
use ngraph.Encapsulator.Installed.{IsBuilding, HasNode, create_encapsulates-node}
use ngraph.Encapsulator.Removed.{IsLawful, rewrite_pass-unclustered}
use ngraph.Encapsulator.Survives.{rewrite_pass-kept}
use ngraph.Tests.Encapsulation.{
  path_graph, one_cluster, names, requested, floats, value, is_ok, is_ok-eq, analysed, analysed-eq,
  plain,
}

-- an id above those of all nodes
abbrev above : List Node → ℕ
above [] = 0
above (n ∷ ns) = suc (n.id + above ns)

above_lt : (ns : List Node) (n : Node) → In n ns → n.id < above ns
above_lt [] n i = absurd (i tt)
above_lt (x ∷ ns) n (inl e) = omega (arith, ap (λ z. z.id) e)
above_lt (x ∷ ns) n (inr i) = omega (arith, above_lt ns n i)

abbrev built_node : ℕ → NodeSpec → Node
built_node v spec = record {
  id = v;
  name = spec.name;
  type_string = spec.type_string;
  num_inputs = 0;
  device = "";
  attrs = spec.attrs;
}

-- control edges are dropped, and a data edge is left as it is
abbrev edits : GraphEdits
edits = record {
  convert_graph_def_to_graph = λ def. ok (record { nodes = []; edges = [] });
  finalize = λ spec g.
      ok (above g.nodes, record g { nodes = g.nodes ++ built_node (above g.nodes) spec ∷ [] });
  remove_control_edge = λ x g. g;
  add_control_edge = λ s d g. g;
  update_edge = λ v k w slot g. ok g;
  remove_node = λ v g. record g { nodes = filter (λ n. not (n.id == v)) g.nodes };
}

without_cluster : (n : Node) → lookup "_ngraph_cluster" n.attrs ≡ none → is_clustered n ≡ false
unfolding is_clustered get_node_cluster get_int
without_cluster n h = ground arith

edits-IsLawful : IsLawful edits
edits-IsLawful = record {
  finalize_nodes = λ spec g g' v h. (
    built_node (above g.nodes) spec,
    ap (λ z. z.1.nodes) (sym (ok_inj h)),
    ap (λ z. z.0) (ok_inj h),
    without_cluster (built_node (above g.nodes) spec),
  );
  finalize_fresh = λ spec g g' v n h i e.
      let same : above g.nodes ≡ v = ap (λ z. z.0) (ok_inj h) in
      ground (arith, above_lt g.nodes n i);
  remove_control_edge_nodes = λ x g. refl;
  add_control_edge_nodes = λ s d g. refl;
  update_edge_nodes = λ v k w slot g g' h. ap (λ z. z.nodes) (sym (ok_inj h));
  remove_node_nodes = λ v g. refl;
}

-- the new node is the only one with its id
edits-IsBuilding : IsBuilding edits
edits-IsBuilding = record {
  finalize_built = λ spec g g' v n h i own.
      let same : above g.nodes ≡ v = ap (λ z. z.0) (ok_inj h) in
      let nodes : g.nodes ++ built_node (above g.nodes) spec ∷ [] ≡ g'.nodes =
        ap (λ z. z.1.nodes) (ok_inj h) in
      elim (In-append_cases n g.nodes (built_node (above g.nodes) spec ∷ [])
        (subst (In n) (sym nodes) i)) [
          | inl before ↦ absurd (omega (arith, above_lt g.nodes n before))
          | inr (inr out) ↦ absurd (out tt)
          | inr (inl new) ↦
              let attrs = ap (λ z. z.attrs) new in
              (
                ap (λ z. z.name) new,
                ap (λ z. z.type_string) new,
                λ k a e. ap (λ z. lookup k z) attrs ∙ e,
              )
        ];
}

unfoldable rewritten_run : Encapsulator
unfolding rewrite_pass analysed
rewritten_run = value analysed (rewrite_pass edits (pos 7) [] analysed)

rewrites : is_ok (rewrite_pass edits (pos 7) [] analysed) ≡ true
unfolding rewrite_pass analysed create_encapsulates create_encapsulate cluster_graph_at
    get_cluster_graph static_inputs_of graph_static_inputs static_arguments encap_spec
    encap_node_name install update_node set_device remap_edges remap_edge control_end
    remove_clustered finish_rewrite analysis_pass analyse finish_analysis new_encapsulator op_nodes
    new_flow populate_devices visit_edges visit_edge visit_flow numbers_match copy_nodes copy_node
    gather_inputs input_names rename_inputs rename_input add_node add_retval add_arg record_retval
    record_arg retval_def arg_def count_flow needs_retval needs_arg cluster_idx is_clustered
    get_node_cluster get_int node_at find_node is_op is_control_edge keeps_control place_input
    tensor_name lookup assign filter decimal
rewrites = refl

rewritten-eq : rewrite_pass edits (pos 7) [] analysed ≡ ok rewritten_run
unfolding rewritten_run
rewritten-eq = is_ok-eq analysed (rewrite_pass edits (pos 7) [] analysed) rewrites

creates : is_ok (create_encapsulates edits (pos 7) [] ((pos 0, "cpu") ∷ []) analysed) ≡ true
unfolding rewrite_pass analysed create_encapsulates create_encapsulate cluster_graph_at
    get_cluster_graph static_inputs_of graph_static_inputs static_arguments encap_spec
    encap_node_name install update_node set_device remap_edges remap_edge control_end
    remove_clustered finish_rewrite analysis_pass analyse finish_analysis new_encapsulator op_nodes
    new_flow populate_devices visit_edges visit_edge visit_flow numbers_match copy_nodes copy_node
    gather_inputs input_names rename_inputs rename_input add_node add_retval add_arg record_retval
    record_arg retval_def arg_def count_flow needs_retval needs_arg cluster_idx is_clustered
    get_node_cluster get_int node_at find_node is_op is_control_edge keeps_control place_input
    tensor_name lookup assign filter decimal
creates = refl

one_device : (d : String) → In {A = ℤ × String} (pos 0, d) ((pos 0, "cpu") ∷ []) → d ≡ "cpu"
one_device d (inl same) = ap (λ z. z.1) same
one_device d (inr out) = absurd (out tt)

create_encapsulates-node_example :
    HasNode
      (pos 0)
      "cpu"
      (value analysed (create_encapsulates edits (pos 7) [] ((pos 0, "cpu") ∷ []) analysed))
create_encapsulates-node_example =
    create_encapsulates-node edits edits-IsLawful edits-IsBuilding (pos 7) [] ((pos 0, "cpu") ∷ [])
      analysed
      (value analysed (create_encapsulates edits (pos 7) [] ((pos 0, "cpu") ∷ []) analysed)) (pos 0)
      "cpu"
      (is_ok-eq analysed (create_encapsulates edits (pos 7) [] ((pos 0, "cpu") ∷ []) analysed)
        creates)
      (inl refl) one_device

-- The analysis leaves the graph as it was.
same_graph : analysed.graph ≡ path_graph
unfolding rewrite_pass analysed create_encapsulates create_encapsulate cluster_graph_at
    get_cluster_graph static_inputs_of graph_static_inputs static_arguments encap_spec
    encap_node_name install update_node set_device remap_edges remap_edge control_end
    remove_clustered finish_rewrite analysis_pass analyse finish_analysis new_encapsulator op_nodes
    new_flow populate_devices visit_edges visit_edge visit_flow numbers_match copy_nodes copy_node
    gather_inputs input_names rename_inputs rename_input add_node add_retval add_arg record_retval
    record_arg retval_def arg_def count_flow needs_retval needs_arg cluster_idx is_clustered
    get_node_cluster get_int node_at find_node is_op is_control_edge keeps_control place_input
    tensor_name lookup assign filter decimal
same_graph = refl

found_at : (a : Node) → In a path_graph.nodes → find_node path_graph.nodes a.id ≡ a
unfolding find_node
found_at a (inl e) = subst (λ z. find_node path_graph.nodes z.id ≡ z) (sym e) refl
found_at a (inr (inl e)) = subst (λ z. find_node path_graph.nodes z.id ≡ z) (sym e) refl
found_at a (inr (inr (inl e))) = subst (λ z. find_node path_graph.nodes z.id ≡ z) (sym e) refl
found_at a (inr (inr (inr (inl e)))) = subst (λ z. find_node path_graph.nodes z.id ≡ z) (sym e) refl
found_at a (inr (inr (inr (inr out)))) = absurd (out tt)

distinct_ids : (a b : Node) → In a path_graph.nodes → In b path_graph.nodes → a.id ≡ b.id → a ≡ b
distinct_ids a b i j h = sym (found_at a i) ∙ ap (find_node path_graph.nodes) h ∙ found_at b j

distinct :
    (a b : Node) → In a analysed.graph.nodes → In b analysed.graph.nodes → a.id ≡ b.id → a ≡ b
distinct =
    subst (λ g. (a b : Node) → In a g.nodes → In b g.nodes → a.id ≡ b.id → a ≡ b) (sym same_graph)
      distinct_ids

no_key : lookup {K = String} {V = String} "_ngraph_cluster" [] ≡ none
unfolding lookup
no_key = refl

first : In (plain 2 "a" 0) analysed.graph.nodes
first = subst (λ g. In (plain 2 "a" 0) g.nodes) (sym same_graph) (inl refl)

free : is_clustered (plain 2 "a" 0) ≡ false
unfolding lookup
free = without_cluster (plain 2 "a" 0) refl

op : is_op 2 ≡ true
unfolding is_op
op = refl

answered : get_new_cluster_ids rewritten_run ≡ ok (pos 0 ∷ [])
unfolding rewritten_run get_new_cluster_ids insert rewrite_pass analysed create_encapsulates
    create_encapsulate cluster_graph_at get_cluster_graph static_inputs_of graph_static_inputs
    static_arguments encap_spec encap_node_name install update_node set_device remap_edges
    remap_edge control_end remove_clustered finish_rewrite analysis_pass analyse finish_analysis
    new_encapsulator op_nodes new_flow populate_devices visit_edges visit_edge visit_flow
    numbers_match copy_nodes copy_node gather_inputs input_names rename_inputs rename_input add_node
    add_retval add_arg record_retval record_arg retval_def arg_def count_flow needs_retval needs_arg
    cluster_idx is_clustered get_node_cluster get_int node_at find_node is_op is_control_edge
    keeps_control place_input tensor_name lookup assign filter decimal
answered = refl

continue_with :
    {A B : Type 0} {m : Status A} {a : A} (f : A → Status B) → m ≡ ok a → (m >>= f) ≡ f a
continue_with f h = ap (λ z. z >>= f) h

runs :
    run names requested floats true edits
      (analysis ∷ rewrite (pos 7) [] ∷ ids ∷ [])
      (new_encapsulator path_graph one_cluster)
    ≡ ok rewritten_run
unfolding run call
runs =
    continue_with (run names requested floats true edits (rewrite (pos 7) [] ∷ ids ∷ []))
      analysed-eq
    ∙ continue_with (run names requested floats true edits (ids ∷ [])) rewritten-eq
    ∙ ap (λ z. (z >>= λ i. ok rewritten_run) >>= run names requested floats true edits []) answered

not_yet :
    (new_encapsulator path_graph one_cluster).analysis_done ≡ false
    → (new_encapsulator path_graph one_cluster).rewrite_done ≡ false
unfolding new_encapsulator
not_yet h = refl

not_next : next (phase (new_encapsulator path_graph one_cluster)) (rewrite (pos 7) []) ≡ none
unfolding new_encapsulator
not_next = refl

rewrite_pass-kept_example : In (plain 2 "a" 0) rewritten_run.graph.nodes
rewrite_pass-kept_example =
    rewrite_pass-kept edits edits-IsLawful (pos 7) [] analysed rewritten_run (plain 2 "a" 0)
      distinct no_key rewritten-eq first free

rewrite_pass-unclustered_example : is_clustered (plain 2 "a" 0) ≡ false
unfolding op_nodes
rewrite_pass-unclustered_example =
    rewrite_pass-unclustered edits edits-IsLawful (pos 7) [] analysed rewritten_run (plain 2 "a" 0)
      rewritten-eq
      (In-filter (λ n. is_op n.id) rewritten_run.graph.nodes (plain 2 "a" 0)
        rewrite_pass-kept_example op)

run-follow_example :
    follow (analysis ∷ rewrite (pos 7) [] ∷ ids ∷ []) fresh ≡ some (phase rewritten_run)
run-follow_example =
    run-follow names requested floats true edits (analysis ∷ rewrite (pos 7) [] ∷ ids ∷ [])
      path_graph one_cluster rewritten_run runs

call-refused_example :
    call names requested floats true edits
      (rewrite (pos 7) [])
      (new_encapsulator path_graph one_cluster)
    ≡ err internal
call-refused_example =
    call-refused names requested floats true edits (rewrite (pos 7) [])
      (new_encapsulator path_graph one_cluster) not_yet not_next
