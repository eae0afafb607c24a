-- ===== src/Builder/Lengths.antt =====
-- The lengths of TranslateSplitVOp.
use ngraph.Prelude.{
  ℕ, zero, suc, ◌≡◌, refl, sym, ap, ◌∙◌, subst, false, ◌<◌, ◌^◌, nat_eq, Option, none, some, List,
  [], ◌∷◌, arith, if◌then◌else◌, inl, inr, ◌⊎◌, get_elem?, set, ◌==◌, Bool-cases,
}
use ngraph.Prelude.Int.{ℤ, pos, negsuc, ◌+ℤ◌, ltb_ℤ, int_eq}
use ngraph.Prelude.Positions.{get_elem?-set, get_elem?-bound}
use ngraph.Prelude.Words.{to_int, to_size_t, IsInt, to_size_t-int, zero-IsInt}
use ngraph.Prelude.Status.{Status, ok, err, invalid_argument}
use ngraph.Builder.Chain.{◌>>=◌, chain-ok}
use ngraph.Encapsulator.Steps.{ok_inj}
use ngraph.Builder.Parts.{scan_lengths, fill_length, is_wrong, split_lengths, neg_ℤ}
use ngraph.Builder.Scanned.{sum, Fits, +ℤ_zero, +ℤ_cancel, scan_lengths-all, scan_lengths-found}

-- after a -1, the scan keeps its place or refuses
scan_lengths-keeps :
    (i : ℕ) (ls : List ℤ) (total : ℤ) (j : ℕ)
    → (scan_lengths i ls total (some j) ≡ err invalid_argument)
      ⊎ ((t : ℤ) × (scan_lengths i ls total (some j) ≡ ok (t, some j)))
unfolding scan_lengths
scan_lengths-keeps i [] total j = inr (total, refl)
scan_lengths-keeps i (l ∷ ls) total j = elim (Bool-cases (l == negsuc 0)) [
  | inl again ↦ inl (ground arith)
  | inr other ↦ elim (scan_lengths-keeps (suc i) ls (to_int (total +ℤ l)) j) [
    | inl bad ↦ inl (ground arith)
    | inr (t, good) ↦ inr (t, ground arith)
  ]
]

-- A SplitV op whose first length is -1 is refused with an invalid argument, whatever the other lengths
-- and the dimension are.
pub split_lengths-first :
    (dim : ℕ) (ls : List ℤ) → split_lengths dim (negsuc 0 ∷ ls) ≡ err invalid_argument
unfolding split_lengths scan_lengths fill_length is_wrong ◌>>=◌
split_lengths-first dim ls = elim (scan_lengths-keeps 1 ls (pos 0) 0) [
  | inl bad ↦ ground arith
  | inr (t, good) ↦ ground arith
]

-- a difference of `int`s that is not refused is exact
to_int-difference :
    (d : ℕ) (t : ℤ)
    → IsInt t
    → d < 2 ^ 31
    → ltb_ℤ (to_int (pos d +ℤ neg_ℤ t)) (pos 0) ≡ false
    → to_int (pos d +ℤ neg_ℤ t) ≡ pos d +ℤ neg_ℤ t
unfolding to_int ◌+ℤ◌
to_int-difference d (pos zero) w h k = ground arith
to_int-difference d (pos (suc n)) w h k = ground arith
to_int-difference d (negsuc n) w h k = ground arith

filled_sum :
    (dim : ℕ) (ls filled : List ℤ) (t : ℤ) (o : Option ℕ)
    → dim < 2 ^ 31
    → Fits (pos 0) ls
    → scan_lengths 0 ls (pos 0) none ≡ ok (t, o)
    → is_wrong dim t o (fill_length dim t o ls) ≡ false
    → fill_length dim t o ls ≡ filled
    → sum filled ≡ pos dim
unfolding fill_length is_wrong
filled_sum dim ls filled t none small f p w e =
    let (total, word) = scan_lengths-all 0 ls (pos 0) t zero-IsInt f p in
    ap sum (sym e)
    ∙ sym (+ℤ_zero (sum ls))
    ∙ sym total
    ∙ to_size_t-int t dim word small (ground (arith, nat_eq.beq_iff (to_size_t t) dim))
filled_sum dim ls filled t (some zero) small f p w e =
    let (q, k, at, _, _) = scan_lengths-found 0 ls (pos 0) t 0 zero-IsInt f p in
    let first : q ≡ 0 = omega (arith, k) in
    let here : get_elem? ls 0 ≡ some (negsuc 0) =
      subst (λ z. get_elem? ls z ≡ some (negsuc 0)) first at in
    absurd (ground (arith, here, w))
filled_sum dim ls filled t (some (suc i)) small f p w e =
    let (q, k, at, each, word) = scan_lengths-found 0 ls (pos 0) t (suc i) zero-IsInt f p in
    let place : q ≡ suc i = omega (arith, k) in
    let inside = get_elem?-bound ls q (negsuc 0) at in
    let x : ℤ = to_int (pos dim +ℤ neg_ℤ t) in
    let there : get_elem? (set ls (suc i) x) (suc i) ≡ some x =
      ground (arith, get_elem?-set ls (suc i) (suc i) x (omega arith)) in
    let exact : x ≡ pos dim +ℤ neg_ℤ t =
      to_int-difference dim t word small (ground (arith, there, w)) in
    ap sum (sym e)
    ∙ sym (+ℤ_zero (sum (set ls (suc i) x)))
    ∙ subst (λ z. pos 0 +ℤ sum (set ls z x) ≡ t +ℤ x) place (each x)
    ∙ ap (λ z. t +ℤ z) exact
    ∙ +ℤ_cancel dim t

-- If TranslateSplitVOp accepts the lengths of a split, what it passes to the split adds up to the
-- dimension that is split. The dimension is less than 2 to the 31, and no partial sum of the given
-- lengths overflows an `int`.
pub split_lengths-sum :
    (dim : ℕ) (ls filled : List ℤ)
    → dim < 2 ^ 31
    → Fits (pos 0) ls
    → split_lengths dim ls ≡ ok filled
    → sum filled ≡ pos dim
unfolding split_lengths fill_length is_wrong
split_lengths-sum dim ls filled small f h =
    let body : ℤ × Option ℕ → Status (List ℤ) = λ found.
      let out = fill_length dim found.0 found.1 ls in
      if is_wrong dim found.0 found.1 out then err invalid_argument else ok out in
    let ((t, o), p, k) = chain-ok (scan_lengths 0 ls (pos 0) none) body h in
    elim (Bool-cases (is_wrong dim t o (fill_length dim t o ls))) [
      | inl wrong ↦ absurd (ground (arith, k, wrong))
      | inr right ↦ filled_sum dim ls filled t o small f p right (ok_inj (ground (arith, k, right)))
    ]
