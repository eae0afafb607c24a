-- ===== src/TransposeSinking.antt =====
-- The permutations of axes of the transpose sinking pass, ngraph_bridge/pass/transpose_sinking.cc. An
-- element of a vector read or written by `at` outside of it is thrown, one written by `[]` is
-- undefined.
pub mod Permutations
pub mod Pads
use ngraph.Prelude.{ℕ, suc, true, false, none, some, List, [], ◌∷◌, ltb, length, get_elem?, set}
use ngraph.Prelude.Int.{ℤ, pos}
use ngraph.Prelude.Positions.{replicate}
use ngraph.Prelude.Status.{Status, ok, err, thrown, fatal, ◌>>=◌}

-- the loop from `i` on, over what is left of the order
unfoldable pub permute : List ℤ → ℕ → List ℕ → List ℤ → Status (List ℤ)
permute input i [] output = ok output
permute input i (a ∷ order) output = elim (get_elem? input a) [
  | none ↦ err thrown
  | some x ↦ elim (ltb i (length output)) [
    | false ↦ err fatal
    | true ↦ permute input (suc i) order (set output i x)
  ]
]

abbrev pub apply_permutation : List ℤ → List ℕ → Status (List ℤ)
apply_permutation input order = permute input 0 order (replicate (length input) (pos 0))

-- the loop from `i` on, over what is left of the order
unfoldable pub invert : ℕ → List ℕ → List ℕ → Status (List ℕ)
invert i [] out = ok out
invert i (a ∷ axis_order) out = elim (ltb a (length out)) [
  | false ↦ err thrown
  | true ↦ invert (suc i) axis_order (set out a i)
]

abbrev pub permutation_to_default_order : List ℕ → Status (List ℕ)
permutation_to_default_order axis_order = invert 0 axis_order (replicate (length axis_order) 0)

-- the pads of `sink_pad` before and after the elements, for a pad of a value that is transposed by
-- `order`
abbrev pub sink_pads : List ℕ → List ℤ → List ℤ → Status (List ℤ × List ℤ)
sink_pads order begin end = permutation_to_default_order order >>= λ def_order.
    apply_permutation begin def_order >>= λ pad_begin.
    apply_permutation end def_order >>= λ pad_end. ok (pad_begin, pad_end)
