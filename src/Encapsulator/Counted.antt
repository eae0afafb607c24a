-- ===== src/Encapsulator/Counted.antt =====
-- The counters of pass 2, which the summary of the placement is tested against.
use ngraph.Prelude.{ℕ, suc, ◌+◌, ◌≡◌, true, Bool, List, [], ◌∷◌, arith, nat_eq, nat_beq_iff, length}
use ngraph.Prelude.Int.{ℤ}
use ngraph.Prelude.Status.{ok, >>=-eq-ok}
use ngraph.Graph.{DataType, Node, Edge, Graph}
use ngraph.Encapsulator.{Encapsulator}
use ngraph.Encapsulator.Flow.{
  Flow, new_flow, record_retval, record_arg, count_flow, visit_edge, visit_edges,
}
use ngraph.Encapsulator.Analysis.{computed_edge_number, numbers_match}
use ngraph.Encapsulator.Steps.{Retval, Arg, Visit, visit_edge-ok}

-- `k` edges more have been seen, and counted
record IsCounted (k : ℕ) (f f' : Flow) : Type 0 where
  computed : computed_edge_number f' ≡ k + computed_edge_number f
  total : f'.count_tot ≡ k + f.count_tot

Retval-IsCounted :
    {src : Node} {slot : ℤ} {dt : DataType} {f f' : Flow}
    → Retval src slot dt f f'
    → IsCounted 0 f f'
unfolding record_retval
Retval-IsCounted (Retval.there p) = record { computed = omega arith; total = omega arith }
Retval-IsCounted (Retval.added m p) = record { computed = omega arith; total = omega arith }

Arg-IsCounted :
    {src : Node} {slot : ℤ} {dst : Node} {dt : DataType} {f f' : Flow}
    → Arg src slot dst dt f f'
    → IsCounted 0 f f'
unfolding record_arg
Arg-IsCounted (Arg.there p) = record { computed = omega arith; total = omega arith }
Arg-IsCounted (Arg.added m p) = record { computed = omega arith; total = omega arith }

count_flow-more :
    (a r : Bool) (f : Flow)
    → (computed_edge_number (count_flow true a r f) ≡ suc (computed_edge_number f))
      × ((count_flow true a r f).count_tot ≡ f.count_tot)
unfolding count_flow
count_flow-more a r f = ground arith

module _ (input_type : Node → ℤ → DataType) where
  Visit-IsCounted :
      {g : Graph} {e : Edge} {f f' : Flow} → Visit input_type true g e f f' → IsCounted 1 f f'
  Visit-IsCounted (Visit.free p) = record { computed = omega arith; total = omega arith }
  Visit-IsCounted (Visit.encapsulated p) = record { computed = omega arith; total = omega arith }
  Visit-IsCounted (Visit.flow a r f₁ f₂ c s t) =
      let p = Retval-IsCounted s in
      let q = Arg-IsCounted t in
      let more = count_flow-more a r f₂ in
      record {
        computed = omega (arith, more.0, q.computed, p.computed);
        total = omega (arith, more.1, q.total, p.total);
      }

  visit_edges-IsCounted :
      (g : Graph) (es : List Edge) (f f' : Flow)
      → visit_edges input_type true g es f ≡ ok f'
      → IsCounted (length es) f f'
  unfolding visit_edges
  visit_edges-IsCounted g [] f f' h = record { computed = ground arith; total = ground arith }
  visit_edges-IsCounted g (e ∷ es) f f' h =
      let (f₁, p, rest) =
        >>=-eq-ok (visit_edge input_type true g e f) (visit_edges input_type true g es) h in
      let one = Visit-IsCounted (visit_edge-ok input_type true g e f f₁ p) in
      let more = visit_edges-IsCounted g es f₁ f' rest in
      record {
        computed = omega (arith, one.computed, more.computed);
        total = omega (arith, one.total, more.total);
      }

  -- When placement is logged and pass 2 goes through the edges of a graph from fresh counters, the
  -- numbers that the summary compares agree: the five kinds of edges add up to the edges that were
  -- visited, and these are all the edges of the graph. So its internal error is never returned.
  pub visit_edges-numbers_match :
      (g : Graph) (e : Encapsulator) (f : Flow)
      → visit_edges input_type true g g.edges (new_flow e) ≡ ok f
      → numbers_match g f ≡ true
  unfolding numbers_match new_flow
  visit_edges-numbers_match g e f h =
      let c = visit_edges-IsCounted g g.edges (new_flow e) f h in
      ground (
        arith,
        c.computed,
        c.total,
        nat_beq_iff (computed_edge_number f) f.count_tot,
        nat_beq_iff f.count_tot (length g.edges),
      )
