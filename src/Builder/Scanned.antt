-- ===== src/Builder/Scanned.antt =====
-- The scan of the lengths by TranslateSplitVOp, where no `int` overflows.
use ngraph.Prelude.{
  ℕ, zero, suc, ◌+◌, ◌≡◌, sym, ap, ◌∙◌, subst, true, false, nat_eq, Option, none, some, List, [],
  ◌∷◌, arith, inl, inr, get_elem?, set, ◌==◌, Bool-cases,
}
use ngraph.Prelude.Int.{ℤ, pos, negsuc, ◌+ℤ◌, int_eq}
use ngraph.Prelude.Words.{to_int, IsInt}
use ngraph.Prelude.Status.{ok}
use ngraph.Encapsulator.Steps.{ok_inj}
use ngraph.Builder.Parts.{scan_lengths, neg_ℤ}

-- the sum of the lengths
abbrev pub sum : List ℤ → ℤ
sum [] = pos 0
sum (l ∷ ls) = l +ℤ sum ls

+ℤ_assoc : (a b c : ℤ) → (a +ℤ b) +ℤ c ≡ a +ℤ (b +ℤ c)
unfolding ◌+ℤ◌
+ℤ_assoc (pos a) (pos b) (pos c) = ground arith
+ℤ_assoc (pos a) (pos b) (negsuc c) = ground arith
+ℤ_assoc (pos a) (negsuc b) (pos c) = ground arith
+ℤ_assoc (pos a) (negsuc b) (negsuc c) = ground arith
+ℤ_assoc (negsuc a) (pos b) (pos c) = ground arith
+ℤ_assoc (negsuc a) (pos b) (negsuc c) = ground arith
+ℤ_assoc (negsuc a) (negsuc b) (pos c) = ground arith
+ℤ_assoc (negsuc a) (negsuc b) (negsuc c) = ground arith

pub +ℤ_comm : (a b : ℤ) → a +ℤ b ≡ b +ℤ a
unfolding ◌+ℤ◌
+ℤ_comm (pos a) (pos b) = ground arith
+ℤ_comm (pos a) (negsuc b) = ground arith
+ℤ_comm (negsuc a) (pos b) = ground arith
+ℤ_comm (negsuc a) (negsuc b) = ground arith

pub +ℤ_zero : (a : ℤ) → pos 0 +ℤ a ≡ a
unfolding ◌+ℤ◌
+ℤ_zero (pos a) = ground arith
+ℤ_zero (negsuc a) = ground arith

pub +ℤ_cancel : (d : ℕ) (t : ℤ) → t +ℤ (pos d +ℤ neg_ℤ t) ≡ pos d
unfolding ◌+ℤ◌
+ℤ_cancel d (pos zero) = ground arith
+ℤ_cancel d (pos (suc n)) = ground arith
+ℤ_cancel d (negsuc n) = ground arith

-- no partial sum of the lengths, a -1 left out, overflows an `int`
abbrev pub Fits : ℤ → List ℤ → Type 0
Fits total [] = Unit
Fits total (l ∷ ls) = elim (l == negsuc 0) [
  | true ↦ Fits total ls
  | false ↦ IsInt (total +ℤ l) × Fits (total +ℤ l) ls
]

-- one step of the scan, where nothing overflows
module _ (i : ℕ) (l : ℤ) (ls : List ℤ) (total : ℤ) (other : (l == negsuc 0) ≡ false)
    (fits : Fits total (l ∷ ls)) where
  Fits-tail : IsInt (total +ℤ l) × Fits (total +ℤ l) ls
  Fits-tail =
      subst
        (λ b. elim b as (λ x. Type 0) [
          | true ↦ Fits total ls
          | false ↦ IsInt (total +ℤ l) × Fits (total +ℤ l) ls
        ])
        other fits

  scan_lengths-step :
      (o : Option ℕ) → scan_lengths i (l ∷ ls) total o ≡ scan_lengths (suc i) ls (total +ℤ l) o
  unfolding scan_lengths
  scan_lengths-step o =
      let exact : to_int (total +ℤ l) ≡ total +ℤ l = Fits-tail.0 in ground (arith, other, exact)

Fits-mark :
    (l : ℤ) (ls : List ℤ) (total : ℤ) → (l == negsuc 0) ≡ true → Fits total (l ∷ ls) → Fits total ls
Fits-mark l ls total here fits =
    subst
      (λ b. elim b as (λ x. Type 0) [
        | true ↦ Fits total ls
        | false ↦ IsInt (total +ℤ l) × Fits (total +ℤ l) ls
      ])
      here fits

-- a scan that has its -1 adds the other lengths up
scan_lengths-after :
    (i : ℕ) (ls : List ℤ) (total : ℤ) (j : ℕ) (t : ℤ) (o : Option ℕ)
    → IsInt total
    → Fits total ls
    → scan_lengths i ls total (some j) ≡ ok (t, o)
    → (o ≡ some j) × (t ≡ total +ℤ sum ls) × IsInt t
unfolding scan_lengths
scan_lengths-after i [] total j t o w f h =
    let e : (total, some j) ≡ (t, o) = ok_inj h in
    (
      sym (ap (λ z. z.1) e),
      sym (ap (λ z. z.0) e) ∙ sym (+ℤ_comm total (pos 0) ∙ +ℤ_zero total),
      subst IsInt (ap (λ z. z.0) e) w,
    )
scan_lengths-after i (l ∷ ls) total j t o w f h = elim (Bool-cases (l == negsuc 0)) [
  | inl again ↦ absurd (ground arith)
  | inr other ↦
      let (exact, rest) = Fits-tail i l ls total other f in
      let step = scan_lengths-step i l ls total other f (some j) in
      let (p, q, r) = scan_lengths-after (suc i) ls (total +ℤ l) j t o exact rest (sym step ∙ h) in
      (p, q ∙ +ℤ_assoc total l (sum ls), r)
]

-- a scan that meets no -1 adds all lengths up
pub scan_lengths-all :
    (i : ℕ) (ls : List ℤ) (total t : ℤ)
    → IsInt total
    → Fits total ls
    → scan_lengths i ls total none ≡ ok (t, none)
    → (t ≡ total +ℤ sum ls) × IsInt t
unfolding scan_lengths
scan_lengths-all i [] total t w f h =
    let e : ◌≡◌ {A = ℤ × Option ℕ} (total, none) (t, none) = ok_inj h in
    (
      sym (ap (λ z. z.0) e) ∙ sym (+ℤ_comm total (pos 0) ∙ +ℤ_zero total),
      subst IsInt (ap (λ z. z.0) e) w,
    )
scan_lengths-all i (l ∷ ls) total t w f h = elim (Bool-cases (l == negsuc 0)) [
  | inl here ↦
      let rest = Fits-mark l ls total here f in
      let (o, _, _) = scan_lengths-after (suc i) ls total i t none w rest (ground arith) in
      absurd (ground (arith, o))
  | inr other ↦
      let (exact, rest) = Fits-tail i l ls total other f in
      let step = scan_lengths-step i l ls total other f none in
      let (q, r) = scan_lengths-all (suc i) ls (total +ℤ l) t exact rest (sym step ∙ h) in
      (q ∙ +ℤ_assoc total l (sum ls), r)
]

-- a scan that meets a -1 knows its place, and what the other lengths add up to
pub scan_lengths-found :
    (i : ℕ) (ls : List ℤ) (total t : ℤ) (k : ℕ)
    → IsInt total
    → Fits total ls
    → scan_lengths i ls total none ≡ ok (t, some k)
    → (p : ℕ) × (k ≡ i + p)
      × (get_elem? ls p ≡ some (negsuc 0))
      × ((x : ℤ) → total +ℤ sum (set ls p x) ≡ t +ℤ x)
      × IsInt t
unfolding scan_lengths
scan_lengths-found i [] total t k w f h = absurd (ground arith)
scan_lengths-found i (l ∷ ls) total t k w f h = elim (Bool-cases (l == negsuc 0)) [
  | inl here ↦
      let rest = Fits-mark l ls total here f in
      let (o, q, r) = scan_lengths-after (suc i) ls total i t (some k) w rest (ground arith) in
      (
        0,
        ground (arith, o),
        ground (arith, int_eq.beq_iff l (negsuc 0)),
        λ x.
            ap (λ z. total +ℤ z) (+ℤ_comm x (sum ls))
            ∙ sym (+ℤ_assoc total (sum ls) x)
            ∙ ap (λ z. z +ℤ x) (sym q),
        r,
      )
  | inr other ↦
      let (exact, rest) = Fits-tail i l ls total other f in
      let step = scan_lengths-step i l ls total other f none in
      let (p, e, at, each, r) =
        scan_lengths-found (suc i) ls (total +ℤ l) t k exact rest (sym step ∙ h) in
      (suc p, omega (arith, e), at, λ x. sym (+ℤ_assoc total l (sum (set ls p x))) ∙ each x, r)
]
