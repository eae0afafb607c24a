-- ===== src/Mark/Disabled.antt =====
-- The table of confirmation functions between calls of the marking pass, as the disabled ops change
-- it.
use ngraph.Prelude.{
  String, ◌≡◌, refl, true, false, none, List, [], ◌∷◌, string_eq, if◌then◌else◌, contains, lookup,
  remove, lookup-remove, arith, Bool-cases, inl, inr,
}
use ngraph.Prelude.Status.{ok}
use ngraph.Mark.Confirm.{Confirmation, get_confirmation_map}
use ngraph.Mark.Pass.{Statics, same_set, disable, refresh}

same_set_refl : (xs : List String) → same_set xs xs ≡ true
unfolding same_set
same_set_refl [] = refl
same_set_refl (x ∷ xs) = ground (arith, string_eq.beq_iff x x, same_set_refl xs)

disable-lookup :
    (ops : List String) (m : List (String × Confirmation)) (k : String)
    → (disable ops m).0 ≡ ok tt
    → lookup k (disable ops m).1 ≡ (if contains ops k then none else lookup k m)
unfolding disable contains
disable-lookup [] m k h = refl
disable-lookup (op ∷ ops) m k h =
    ground (arith, disable-lookup ops (remove op m) k, lookup-remove op k m, string_eq.beq_iff k op)

disable-shrinks :
    (ops : List String) (m : List (String × Confirmation)) (k : String)
    → lookup k m ≡ none
    → lookup k (disable ops m).1 ≡ none
unfolding disable
disable-shrinks [] m k h = h
disable-shrinks (op ∷ ops) m k h =
    ground (arith, disable-shrinks ops (remove op m) k, lookup-remove op k m)

-- When a call of the marking pass finds another set of disabled ops than the call before and accepts
-- it, an op has a confirmation function afterwards exactly if it has one in GetConfirmationMap and is
-- not disabled, and it is that one: what was disabled before is enabled again.
pub refresh-lookup :
    (current : List String) (s : Statics) (k : String)
    → same_set current s.disabled_ops_set ≡ false
    → (refresh current s).0 ≡ ok tt
    → lookup k (refresh current s).1.confirmation_function_map
      ≡ (if contains current k then none else lookup k get_confirmation_map)
unfolding refresh
refresh-lookup current s k d h = ground (arith, disable-lookup current get_confirmation_map k)

-- Whatever the first call of the marking pass says of the disabled ops, also when it refuses them, a
-- second call that finds the same set of them reports no error and leaves the table of confirmation
-- functions as it is.
pub refresh-again :
    (current : List String) (s : Statics)
    → refresh current (refresh current s).1 ≡ (ok tt, (refresh current s).1)
unfolding refresh
refresh-again current s = elim (Bool-cases (same_set current s.disabled_ops_set)) [
  | inl same ↦ ground (arith, same_set_refl current)
  | inr other ↦ ground (arith, same_set_refl current)
]

-- An op without a function in GetConfirmationMap has none in the table of a call.
pub record IsWithin (s : Statics) : Type 0 where
  pub within :
      (k : String)
      → lookup k get_confirmation_map ≡ none
      → lookup k s.confirmation_function_map ≡ none

pub refresh-IsWithin :
    (current : List String) (s : Statics) → IsWithin s → IsWithin (refresh current s).1
unfolding refresh
refresh-IsWithin current s w = record {
  within = λ k h. ground (
    arith,
    w.within k h,
    disable-shrinks current get_confirmation_map k,
    disable-shrinks current s.confirmation_function_map k,
  );
}
