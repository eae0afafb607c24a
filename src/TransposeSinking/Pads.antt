-- ===== src/TransposeSinking/Pads.antt =====
-- The pads that the pass moves before a transpose.
use ngraph.Prelude.{ℕ, ◌≡◌, sym, ap, ◌∙◌, List, length, get_elem?, arith}
use ngraph.Prelude.Int.{ℤ}
use ngraph.Prelude.Positions.{bound-get_elem?, List-ext}
use ngraph.Prelude.Status.{ok}
use ngraph.TransposeSinking.{apply_permutation, sink_pads}
use ngraph.TransposeSinking.Permutations.{
  IsPermutation, Inverts, Inverts-in_range, default_order-Inverts, apply_permutation-IsPermuted,
}

-- what is permuted by the inverse comes back by the order
apply_permutation-back :
    (order inverse : List ℕ) (pads : List ℤ)
    → IsPermutation order
    → Inverts order inverse
    → length pads ≡ length order
    → (moved : List ℤ) × (apply_permutation pads inverse ≡ ok moved)
      × (apply_permutation moved order ≡ ok pads)
apply_permutation-back order inverse pads perm inv long =
    let (moved, first, wide, p) =
      apply_permutation-IsPermuted pads inverse (Inverts-in_range order inverse inv)
        (long ∙ sym inv.0) in
    let (back, second, deep, q) =
      apply_permutation-IsPermuted moved order perm.in_range (wide ∙ inv.0) in
    let same : back ≡ pads = List-ext back pads (deep ∙ sym long) (λ k h.
      let (a, at) = bound-get_elem? order k (omega (arith, deep)) in
      let (j, there, put) = inv.1 a (perm.in_range k a at) in
      q k a at ∙ p a j put ∙ ap (get_elem? pads) (perm.once j k a there at)) in
    (moved, first, second ∙ ap ok same)

-- For a value that is transposed by a permutation of its axes, and pads with an entry for each axis,
-- the pads that `sink_pad` gives the new pad exist, and transposed by the same permutation they are
-- the pads of the old one, before and after the elements.
pub sink_pads-apply_permutation :
    (order : List ℕ) (begin end : List ℤ)
    → IsPermutation order
    → length begin ≡ length order
    → length end ≡ length order
    → (pad_begin : List ℤ) × (pad_end : List ℤ) × (sink_pads order begin end
        ≡ ok (pad_begin, pad_end))
      × (apply_permutation pad_begin order ≡ ok begin)
      × (apply_permutation pad_end order ≡ ok end)
sink_pads-apply_permutation order begin end perm long_begin long_end =
    let (inverse, made, inv) = default_order-Inverts order perm in
    let (pad_begin, moved_begin, begin_back) =
      apply_permutation-back order inverse begin perm inv long_begin in
    let (pad_end, moved_end, end_back) =
      apply_permutation-back order inverse end perm inv long_end in
    (pad_begin, pad_end, ground (arith, made, moved_begin, moved_end), begin_back, end_back)
