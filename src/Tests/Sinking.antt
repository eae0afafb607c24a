-- ===== src/Tests/Sinking.antt =====
-- Runs of the permutation helpers of the transpose sinking pass.
use ngraph.Prelude.{ap, ℕ, zero, suc, ◌<◌, ◌≡◌, refl, some, List, [], ◌∷◌, length, get_elem?, arith}
use ngraph.Prelude.Int.{ℤ, pos}
use ngraph.Prelude.Status.{ok, err, thrown}
use ngraph.TransposeSinking.{
  permute, apply_permutation, invert, permutation_to_default_order, sink_pads,
}
use ngraph.TransposeSinking.Pads.{sink_pads-apply_permutation}
use ngraph.TransposeSinking.Permutations.{
  IsPermutation, permutation_to_default_order-apply_permutation,
  permutation_to_default_order-thrown,
}

abbrev to_nchw : List ℕ
to_nchw = 0 ∷ 3 ∷ 1 ∷ 2 ∷ []

abbrev padding : List ℤ
padding = pos 0 ∷ pos 1 ∷ pos 2 ∷ pos 5 ∷ []

to_nhwc : permutation_to_default_order to_nchw ≡ ok (0 ∷ 2 ∷ 3 ∷ 1 ∷ [])
unfolding invert
to_nhwc = refl

permuted : apply_permutation padding to_nchw ≡ ok (pos 0 ∷ pos 5 ∷ pos 1 ∷ pos 2 ∷ [])
unfolding permute
permuted = refl

to_nchw-in_range : (k a : ℕ) → get_elem? to_nchw k ≡ some a → a < length to_nchw
to_nchw-in_range zero a h = ground arith
to_nchw-in_range (suc zero) a h = ground arith
to_nchw-in_range (suc (suc zero)) a h = ground arith
to_nchw-in_range (suc (suc (suc zero))) a h = ground arith
to_nchw-in_range (suc (suc (suc (suc k)))) a h = ground arith

to_nchw-covers : (a : ℕ) → a < length to_nchw → (k : ℕ) × (get_elem? to_nchw k ≡ some a)
to_nchw-covers zero h = (0, refl)
to_nchw-covers (suc zero) h = (2, refl)
to_nchw-covers (suc (suc zero)) h = (3, refl)
to_nchw-covers (suc (suc (suc zero))) h = (1, refl)
to_nchw-covers (suc (suc (suc (suc a)))) h = absurd (omega arith)

abbrev place : ℕ → ℕ
place zero = 0
place (suc zero) = 2
place (suc (suc zero)) = 3
place (suc (suc (suc a))) = 1

at_place : (k a : ℕ) → get_elem? to_nchw k ≡ some a → k ≡ place a
at_place zero a h = let e : 0 ≡ a = ground arith in ap place e
at_place (suc zero) a h = let e : 3 ≡ a = ground arith in ap place e
at_place (suc (suc zero)) a h = let e : 1 ≡ a = ground arith in ap place e
at_place (suc (suc (suc zero))) a h = let e : 2 ≡ a = ground arith in ap place e
at_place (suc (suc (suc (suc k)))) a h = ground arith

to_nchw-IsPermutation : IsPermutation to_nchw
to_nchw-IsPermutation = record {
  in_range = to_nchw-in_range;
  covers = to_nchw-covers;
  once = λ j k a h h'. omega (arith, at_place j a h, at_place k a h');
}

permutation_to_default_order-apply_permutation_example :
    (inverse : List ℕ) × (back : List ℤ) × (permutation_to_default_order to_nchw ≡ ok inverse)
    × (apply_permutation padding to_nchw ≡ ok back)
    × (apply_permutation back inverse ≡ ok padding)
permutation_to_default_order-apply_permutation_example =
    permutation_to_default_order-apply_permutation padding to_nchw to_nchw-IsPermutation refl

permutation_to_default_order-thrown_example :
    (permutation_to_default_order (0 ∷ 2 ∷ []) ≡ err thrown)
    × (apply_permutation (pos 7 ∷ pos 8 ∷ []) (0 ∷ 2 ∷ []) ≡ err thrown)
permutation_to_default_order-thrown_example =
    permutation_to_default_order-thrown (pos 7 ∷ pos 8 ∷ []) (0 ∷ 2 ∷ []) 1 2 refl (omega arith)
      refl

sink_pads-apply_permutation_example :
    (pad_begin : List ℤ) × (pad_end : List ℤ) × (sink_pads to_nchw padding
        (pos 0 ∷ pos 0 ∷ pos 3 ∷ pos 4 ∷ [])
      ≡ ok (pad_begin, pad_end))
    × (apply_permutation pad_begin to_nchw ≡ ok padding)
    × (apply_permutation pad_end to_nchw ≡ ok (pos 0 ∷ pos 0 ∷ pos 3 ∷ pos 4 ∷ []))
sink_pads-apply_permutation_example =
    sink_pads-apply_permutation to_nchw padding (pos 0 ∷ pos 0 ∷ pos 3 ∷ pos 4 ∷ [])
      to_nchw-IsPermutation refl refl
