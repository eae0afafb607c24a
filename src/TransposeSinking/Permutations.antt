-- ===== src/TransposeSinking/Permutations.antt =====
-- The order that undoes a permutation.
use ngraph.Prelude.{
  ℕ, zero, suc, ◌+◌, ◌≤◌, ◌<◌, ◌≡◌, ◌≢◌, refl, sym, ap, ◌∙◌, ◌⊎◌, inl, inr, some, List, [], ◌∷◌,
  length, get_elem?, set, arith, Bool-cases, Option-cases, nat_eq, ◌==◌,
}
use ngraph.Prelude.Int.{ℤ, pos}
use ngraph.Prelude.Positions.{
  replicate, length-replicate, length-set, get_elem?-set, get_elem?-bound, bound-get_elem?,
  List-ext,
}
use ngraph.Prelude.Status.{ok, err, thrown}
use ngraph.TransposeSinking.{permute, apply_permutation, invert, permutation_to_default_order}

-- `v` keeps what `u` holds before `i`, and has at `i + k` what `order` picks at `k`
record IsPermuted (input : List ℤ) (i : ℕ) (order : List ℕ) (u v : List ℤ) : Type 0 where
  same_length : length v ≡ length u
  before : (j : ℕ) → j < i → get_elem? v j ≡ get_elem? u j
  picked : (k a : ℕ) → get_elem? order k ≡ some a → get_elem? v (i + k) ≡ get_elem? input a

module _ (input : List ℤ) (i a : ℕ) (order : List ℕ) (u v : List ℤ) (x : ℤ)
    (done : IsPermuted input (suc i) order (set u i x) v) (at : get_elem? input a ≡ some x)
    (fits : i < length u) where
  -- the first position, and those after it
  at_place : (k b : ℕ) → get_elem? (a ∷ order) k ≡ some b → get_elem? v (i + k) ≡ get_elem? input b
  at_place zero b h =
      let first : get_elem? v (i + 0) ≡ get_elem? (set u i x) i =
        ap (get_elem? v) (omega arith) ∙ done.before i (omega arith) in
      let written = get_elem?-set u i i x fits in ground arith
  at_place (suc k) b h = ap (get_elem? v) (omega arith) ∙ done.picked k b h

  extend : IsPermuted input i (a ∷ order) u v
  extend = record {
    same_length = done.same_length ∙ length-set u i x;
    before = λ j h. done.before j (omega arith) ∙ ground (arith, get_elem?-set u i j x fits);
    picked = at_place;
  }

permute-IsPermuted :
    (input : List ℤ) (i : ℕ) (order : List ℕ) (u : List ℤ)
    → ((k a : ℕ) → get_elem? order k ≡ some a → a < length input)
    → i + length order ≤ length u
    → (v : List ℤ) × (permute input i order u ≡ ok v) × IsPermuted input i order u v
unfolding permute
permute-IsPermuted input i [] u range fits = (
  u,
  refl,
  record { same_length = refl; before = λ j h. refl; picked = λ k a h. absurd (ground arith) },
)
permute-IsPermuted input i (a ∷ order) u range fits =
    let (x, at) = bound-get_elem? input a (range 0 a refl) in
    let same = length-set u i x in
    let (v, ran, done) =
      permute-IsPermuted input (suc i) order (set u i x) (λ k. range (suc k)) (omega arith) in
    (v, ground arith, extend input i a order u v x done at (omega arith))

-- `v` holds at the axis what `u` holds, or a place of the axis in the order
abbrev Placed : ℕ → List ℕ → List ℕ → List ℕ → ℕ → Type 0
Placed i order u v a =
    ((get_elem? v a ≡ get_elem? u a) × ((k : ℕ) → get_elem? order k ≢ some a))
    ⊎ ((k : ℕ) × (get_elem? order k ≡ some a) × (get_elem? v a ≡ some (i + k)))

not_first :
    (a b : ℕ) (order : List ℕ)
    → a ≢ b
    → ((k : ℕ) → get_elem? order k ≢ some a)
    → (k : ℕ) → get_elem? (b ∷ order) k ≢ some a
not_first a b order h missing zero e = ground arith
not_first a b order h missing (suc k) e = missing k e

Placed-cons :
    (i b : ℕ) (order u v : List ℕ) (a : ℕ)
    → b < length u
    → Placed (suc i) order (set u b i) v a
    → Placed i (b ∷ order) u v a
Placed-cons i b order u v a inside (inr (k, at, put)) = inr (suc k, at, put ∙ ap some (omega arith))
Placed-cons i b order u v a inside (inl (kept, missing)) =
    let written = get_elem?-set u b a i inside in
    elim (Bool-cases (a == b)) [
      | inl here ↦ inr (0, ground (arith, nat_eq.beq_iff a b), ground arith)
      | inr other ↦
          inl (ground arith, not_first a b order (ground (arith, nat_eq.beq_iff a b)) missing)
    ]

invert-Placed :
    (i : ℕ) (order u : List ℕ)
    → ((k a : ℕ) → get_elem? order k ≡ some a → a < length u)
    → (v : List ℕ) × (invert i order u ≡ ok v)
      × (length v ≡ length u)
      × ((a : ℕ) → Placed i order u v a)
unfolding invert
invert-Placed i [] u range = (u, refl, refl, λ a. inl (refl, λ k h. ground arith))
invert-Placed i (b ∷ order) u range =
    let inside = range 0 b refl in
    let same = length-set u b i in
    let (v, ran, long, each) =
      invert-Placed (suc i) order (set u b i) (λ k a h. omega (arith, range (suc k) a h)) in
    (v, ground arith, long ∙ same, λ a. Placed-cons i b order u v a inside (each a))

-- each entry is an axis, and each axis is an entry at one place
pub record IsPermutation (order : List ℕ) : Type 0 where
  pub in_range : (k a : ℕ) → get_elem? order k ≡ some a → a < length order
  pub covers : (a : ℕ) → a < length order → (k : ℕ) × (get_elem? order k ≡ some a)
  pub once : (j k a : ℕ) → get_elem? order j ≡ some a → get_elem? order k ≡ some a → j ≡ k

-- an order that holds, at each axis, a place of the axis in the other order
abbrev pub Inverts : List ℕ → List ℕ → Type 0
Inverts order inverse =
    (length inverse ≡ length order)
    × ((a : ℕ)
        → a < length order
        → (k : ℕ) × (get_elem? order k ≡ some a) × (get_elem? inverse a ≡ some k))

pub default_order-Inverts :
    (order : List ℕ)
    → IsPermutation order
    → (inverse : List ℕ) × (permutation_to_default_order order ≡ ok inverse) × Inverts order inverse
default_order-Inverts order perm =
    let blank = length-replicate {A = ℕ} (length order) 0 in
    let (inverse, made, many, each) =
      invert-Placed 0 order (replicate (length order) 0)
        (λ k a h. omega (arith, perm.in_range k a h)) in
    (
      inverse,
      made,
      (
        many ∙ blank,
        λ a h. elim (each a) [
          | inl (kept, missing) ↦ let (k, at) = perm.covers a h in absurd (missing k at)
          | inr (k, at, put) ↦ (k, at, put ∙ ap some (omega arith))
        ],
      ),
    )

pub apply_permutation-IsPermuted :
    (input : List ℤ) (order : List ℕ)
    → ((k a : ℕ) → get_elem? order k ≡ some a → a < length order)
    → length input ≡ length order
    → (v : List ℤ) × (apply_permutation input order ≡ ok v)
      × (length v ≡ length order)
      × ((k a : ℕ) → get_elem? order k ≡ some a → get_elem? v k ≡ get_elem? input a)
apply_permutation-IsPermuted input order range long =
    let blank = length-replicate {A = ℤ} (length input) (pos 0) in
    let (v, ran, p) =
      permute-IsPermuted input 0 order (replicate (length input) (pos 0))
        (λ k a h. omega (arith, range k a h)) (omega arith) in
    (v, ran, p.same_length ∙ blank ∙ long, λ k a h. ap (get_elem? v) (omega arith) ∙ p.picked k a h)

pub Inverts-in_range :
    (order inverse : List ℕ)
    → Inverts order inverse
    → (k a : ℕ) → get_elem? inverse k ≡ some a
    → a < length inverse
Inverts-in_range order inverse inv k a h =
    let inside = get_elem?-bound inverse k a h in
    let (j, at, put) = inv.1 k (omega (arith, inv.0)) in
    let bound = get_elem?-bound order j k at in
    let same_entry : j ≡ a = ground arith in omega (arith, inv.0, bound, same_entry)

-- For an order that is a permutation of its axes, and an input of as many elements, neither loop throws
-- or writes out of bounds, and permuting the input by the order and then by the order that
-- permutation_to_default_order makes of it gives the input back.
pub permutation_to_default_order-apply_permutation :
    (input : List ℤ) (order : List ℕ)
    → IsPermutation order
    → length input ≡ length order
    → (inverse : List ℕ) × (permuted : List ℤ) × (permutation_to_default_order order ≡ ok inverse)
      × (apply_permutation input order ≡ ok permuted)
      × (apply_permutation permuted inverse ≡ ok input)
permutation_to_default_order-apply_permutation input order perm long =
    let (inverse, made, inv) = default_order-Inverts order perm in
    let (permuted, first, wide, p) = apply_permutation-IsPermuted input order perm.in_range long in
    let (back, second, deep, q) =
      apply_permutation-IsPermuted permuted inverse (Inverts-in_range order inverse inv)
        (wide ∙ sym inv.0) in
    let same : back ≡ input =
      List-ext back input (deep ∙ inv.0 ∙ sym long)
        (λ a h. let (k, at, put) = inv.1 a (omega (arith, deep, inv.0)) in q a k put ∙ p k a at) in
    (inverse, permuted, made, first, second ∙ ap ok same)

invert-thrown :
    (i : ℕ) (order u : List ℕ) (k a : ℕ)
    → get_elem? order k ≡ some a
    → length u ≤ a
    → invert i order u ≡ err thrown
unfolding invert
invert-thrown i [] u k a at out = absurd (ground arith)
invert-thrown i (b ∷ order) u zero a at out = ground arith
invert-thrown i (b ∷ order) u (suc k) a at out =
    let same = length-set u b i in ground (arith, invert-thrown (suc i) order (set u b i) k a at)

permute-thrown :
    (input : List ℤ) (i : ℕ) (order : List ℕ) (u : List ℤ) (k a : ℕ)
    → get_elem? order k ≡ some a
    → length input ≤ a
    → i + length order ≤ length u
    → permute input i order u ≡ err thrown
unfolding permute
permute-thrown input i [] u k a at out fits = absurd (ground arith)
permute-thrown input i (b ∷ order) u zero a at out fits = elim (Option-cases (get_elem? input b)) [
  | inl gone ↦ ground arith
  | inr (x, found) ↦ absurd (ground (arith, get_elem?-bound input b x found))
]
permute-thrown input i (b ∷ order) u (suc k) a at out fits =
    elim (Option-cases (get_elem? input b)) [
      | inl gone ↦ ground arith
      | inr (x, found) ↦
          let same = length-set u i x in
          ground (arith, permute-thrown input (suc i) order (set u i x) k a at out)
    ]

-- An order with an entry that is not one of its axes makes permutation_to_default_order throw, and so
-- makes apply_permutation on an input of as many elements.
pub permutation_to_default_order-thrown :
    (input : List ℤ) (order : List ℕ) (k a : ℕ)
    → get_elem? order k ≡ some a
    → length order ≤ a
    → length input ≡ length order
    → (permutation_to_default_order order ≡ err thrown)
      × (apply_permutation input order ≡ err thrown)
permutation_to_default_order-thrown input order k a at out long =
    let blank = length-replicate {A = ℕ} (length order) 0 in
    let zeros = length-replicate {A = ℤ} (length input) (pos 0) in
    (
      invert-thrown 0 order (replicate (length order) 0) k a at (omega arith),
      permute-thrown input 0 order (replicate (length input) (pos 0)) k a at (omega arith)
          (omega arith),
    )
