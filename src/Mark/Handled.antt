-- ===== src/Mark/Handled.antt =====
-- The marking pass and the translator agree: TRANSLATE_OP_MAP of ngraph_bridge/ngraph_builder.cc has
-- a handler for whatever ngraph_bridge/mark_for_clustering.cc marks.
use ngraph.Prelude.{
  ℕ, String, ◌≡◌, ◌≢◌, refl, ap, ◌∙◌, Bool, true, false, none, some, List, [], ◌∷◌, string_eq,
  lookup, arith, all, Option-cases, inl, inr,
}
use ngraph.Prelude.Status.{ok}
use ngraph.Graph.{Node, Graph, is_op, node_at}
use ngraph.Mark.Access.{node_is_marked_for_clustering}
use ngraph.Mark.Confirm.{Confirmation, get_confirmation_map, confirmation_ok}
use ngraph.Mark.Pass.{Statics, refresh, accepts, mark_for_clustering}
use ngraph.Mark.Marked.{mark_for_clustering-marks}
use ngraph.Mark.Disabled.{IsWithin, refresh-IsWithin}
use ngraph.Assign.Invariant.{Known}
use ngraph.Builder.Handlers.{translate_op_map, handler_of}

abbrev has_handler : String → Bool
has_handler k = elim (lookup k translate_op_map) [ some h ↦ true | none ↦ false ]

all_have_handlers : all (λ entry. has_handler entry.0) get_confirmation_map ≡ true
unfolding all lookup get_confirmation_map translate_op_map
all_have_handlers = refl

lookup-all :
    {V : Type 0} (p : String → Bool) (k : String) (m : List (String × V)) (v : V)
    → all (λ entry. p entry.0) m ≡ true
    → lookup k m ≡ some v
    → p k ≡ true
unfolding all lookup
lookup-all p k [] v h e = cc
lookup-all p k ((j, w) ∷ m) v h e = ground (arith, string_eq.beq_iff k j, lookup-all p k m v)

has_handler-handler_of :
    (k : String) → has_handler k ≡ true → (handler : String) × (handler_of k ≡ ok handler)
unfolding handler_of
has_handler-handler_of k h = elim (Option-cases (lookup k translate_op_map)) [
  | inl missing ↦ absurd (ground arith)
  | inr (handler, found) ↦ (handler, ground arith)
]

accepted_is_confirmed :
    (is_supported : String → Bool) (skip : List String) (m : List (String × Confirmation))
    (n : Node)
    → accepts is_supported skip m n ≡ ok true
    → lookup n.type_string m ≢ none
unfolding accepts confirmation_ok
accepted_is_confirmed is_supported skip m n h k = ground arith

-- If the marking pass succeeds, each op that it marks and that was not marked before has a handler
-- in the translator, so that TranslateGraph does not refuse it for the lack of one. The table of
-- confirmation functions before the call has no op that GetConfirmationMap lacks.
pub mark_for_clustering-handler_of :
    (is_supported : String → Bool) (skip current : List String) (g h : Graph) (s : Statics)
    → IsWithin s
    → (mark_for_clustering is_supported skip current g s).0 ≡ ok h
    → (v : ℕ) → Known g v
    → is_op v ≡ true
    → node_is_marked_for_clustering (node_at g v) ≡ false
    → node_is_marked_for_clustering (node_at h v) ≡ true
    → (handler : String) × (handler_of (node_at g v).type_string ≡ ok handler)
mark_for_clustering-handler_of is_supported skip current g h s w e v k o unmarked marked' =
    let (_, each) = mark_for_clustering-marks is_supported skip current g h s e in
    let (answer, verdict, _, mark, _) = each v k in
    let kind = (node_at g v).type_string in
    let m = (refresh current s).1.confirmation_function_map in
    let yes' : answer ≡ true = ground arith in
    let confirmed =
      accepted_is_confirmed is_supported skip m (node_at g v) (verdict o ∙ ap (λ b. ok b) yes') in
    elim (Option-cases (lookup kind get_confirmation_map)) [
      | inl missing ↦ absurd (confirmed ((refresh-IsWithin current s w).within kind missing))
      | inr (c, found) ↦
          has_handler-handler_of kind
            (lookup-all has_handler kind get_confirmation_map c all_have_handlers found)
    ]
