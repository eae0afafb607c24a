-- ===== src/Builder/Grown.antt =====
-- The op map only grows while TranslateGraph goes through the ops.
use ngraph.Prelude.{
  String, ◌≡◌, sym, ap, ◌∙◌, subst, Option, none, some, List, [], ◌∷◌, ◌++◌, ◌==◌, string_eq, inl,
  inr, Bool-cases,
}
use ngraph.Prelude.Status.{ok, >>=-eq-ok}
use ngraph.Graph.{Node, Graph}
use ngraph.Builder.Library.{Library}
use ngraph.Builder.Inputs.{OpMap, entry}
use ngraph.Builder.Elementwise.{Handler}
use ngraph.Builder.Dispatch.{translate_op}
use ngraph.Builder.Translate.{translate_ops}
use ngraph.Builder.Saves.{Adds, append_nil, append_assoc}
use ngraph.Builder.Frame.{IsSaving}
use ngraph.Builder.Framed.{translate_op-Adds}
use ngraph.Encapsulator.Steps.{ok_inj}

Adds-entry :
    {V : Type 0} (name k : String) (m m' : OpMap V)
    → Adds name m m'
    → (vs : List V) × (entry m' k ≡ entry m k ++ vs)
Adds-entry {V = V} name k m m' a = elim (Bool-cases (k == name)) [
  | inl own ↦
      subst (λ z. (vs : List V) × (entry m' z ≡ entry m z ++ vs))
        (sym ((string_eq.beq_iff k name).0 own)) a.extends
  | inr other ↦ (
    [],
    ap (λ z. elim z as (λ o. List V) [ none ↦ [] | some vs ↦ vs ]) (a.others k other)
        ∙ append_nil (entry m k),
  )
]

-- While TranslateGraph goes through the ops, the values that the op map has for a name stay first in
-- its entry, in their order: a value that one op has read is read by every later op too. Of the
-- handlers that are not modelled it is assumed that they only add to the entry of their op.
pub translate_ops-entry :
    (lib : Library) (others : String → Handler lib)
    → ((name : String) → IsSaving lib (others name))
    → (g : Graph) (statics : List (Option lib.Tensor)) (ops : List Node) (m m' : OpMap lib.Value)
      (k : String)
    → translate_ops lib others g statics ops m ≡ ok m'
    → (vs : List lib.Value) × (entry m' k ≡ entry m k ++ vs)
unfolding translate_ops
translate_ops-entry lib others saving g statics [] m m' k h =
    ([], ap (λ z. entry z k) (sym (ok_inj h)) ∙ append_nil (entry m k))
translate_ops-entry lib others saving g statics (op ∷ ops) m m' k h =
    let (m₁, p, rest) =
      >>=-eq-ok (translate_op lib others g statics op m) (translate_ops lib others g statics ops)
        h in
    let (vs, e) =
      Adds-entry op.name k m m₁ (translate_op-Adds lib others saving g statics op m m₁ p) in
    let (ws, f) = translate_ops-entry lib others saving g statics ops m₁ m' k rest in
    (vs ++ ws, f ∙ ap (λ z. z ++ ws) e ∙ append_assoc (entry m k) vs ws)
