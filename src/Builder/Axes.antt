-- ===== src/Builder/Axes.antt =====
-- CheckAxisDimInRange makes the conversion of negative axes safe.
use ngraph.Prelude.{
  ℕ, zero, suc, ◌<◌, ◌-◌, ◌≡◌, refl, List, [], ◌∷◌, arith, inl, inr, In, subst, sym,
}
use ngraph.Prelude.Int.{ℤ, pos, negsuc, ◌+ℤ◌}
use ngraph.Prelude.Status.{ok}
use ngraph.Builder.Inputs.{check_axis_dim_in_range}
use ngraph.Builder.Shaped.{from_right}

-- If CheckAxisDimInRange accepts the axes of a reduction, each of them, with a negative one counted
-- from the right, is an axis of the shape.
pub check_axis_dim_in_range-from_right :
    (axes : List ℤ) (rank : ℕ) (a : ℤ)
    → check_axis_dim_in_range axes rank ≡ ok tt
    → In a axes
    → (i : ℕ) × (from_right rank a ≡ pos i) × (i < rank)
unfolding check_axis_dim_in_range from_right ◌+ℤ◌
check_axis_dim_in_range-from_right [] rank a h i = absurd (i tt)
check_axis_dim_in_range-from_right (x ∷ axes) rank a h (inr j) =
    check_axis_dim_in_range-from_right axes rank a (ground arith) j
check_axis_dim_in_range-from_right (pos n ∷ axes) rank a h (inl e) =
    subst (λ z. (i : ℕ) × (from_right rank z ≡ pos i) × (i < rank)) (sym e) (n, refl, ground arith)
check_axis_dim_in_range-from_right (negsuc n ∷ axes) (suc r) a h (inl e) =
    subst (λ z. (i : ℕ) × (from_right (suc r) z ≡ pos i) × (i < suc r)) (sym e)
      (r - n, ground arith, ground arith)
check_axis_dim_in_range-from_right (negsuc n ∷ axes) zero a h (inl e) = absurd (ground arith)
