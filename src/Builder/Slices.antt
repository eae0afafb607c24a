-- ===== src/Builder/Slices.antt =====
-- What a strided slice with steps of one takes of a value, read from its arguments as nGraph documents
-- them: a bound whose mask is set is dropped, and a dimension whose shrink mask is set is removed.
use ngraph.Prelude.{
  ℕ, ◌<◌, ◌≡◌, subst, ap, ◌∙◌, Option, none, some, List, [], ◌∷◌, ◌==◌, nat_eq, arith,
  if◌then◌else◌, length, suc, get_elem?, ltb, Bool-cases, inl, inr,
}
use ngraph.Prelude.Int.{ℤ, pos, negsuc, int_eq}
use ngraph.Prelude.Positions.{
  replicate, length-replicate, length-set, get_elem?-replicate, get_elem?-set, get_elem?-bound,
}
use ngraph.Prelude.Status.{ok}
use ngraph.Builder.Library.{Library, ElementType, element, shape, numbers}
use ngraph.Builder.Chain.{chain-ok}
use ngraph.Builder.Shaped.{index_vector}
use ngraph.Builder.Stacks.{index_within, one_entry, unpack_slice}
use ngraph.Encapsulator.Steps.{ok_inj}

-- the first place that is taken along a dimension, and the one after the last
abbrev pub bound : List ℤ → List ℤ → ℤ → ℕ → Option ℤ
bound mask given whole d = elim (get_elem? mask d) [
  | none ↦ none
  | some b ↦ if b == pos 0 then get_elem? given d else some whole
]

-- the value is the slice of `x`, of the shape `s`, with place `j` along the axis and all places along
-- the other dimensions, and without the axis
pub record IsPart (lib : Library) (x : lib.Value) (s : List ℕ) (axis j : ℕ) (v : lib.Value)
    : Type 0 where
  pub begin : lib.Value
  pub end : lib.Value
  pub begins : List ℤ
  pub ends : List ℤ
  pub begin_mask : List ℤ
  pub end_mask : List ℤ
  pub new_axis_mask : List ℤ
  pub shrink_axis_mask : List ℤ
  pub begin_made :
      lib.construct "Constant" []
        (element ElementType.i64 ∷ shape (length s ∷ []) ∷ numbers begins ∷ [])
      ≡ ok begin
  pub end_made :
      lib.construct "Constant" []
        (element ElementType.i64 ∷ shape (length s ∷ []) ∷ numbers ends ∷ [])
      ≡ ok end
  pub made :
      lib.construct "StridedSlice" (x ∷ begin ∷ end ∷ []) (
        numbers begin_mask
        ∷ numbers end_mask
        ∷ numbers new_axis_mask
        ∷ numbers shrink_axis_mask
        ∷ [])
      ≡ ok v
  pub starts :
      (d : ℕ)
      → d < length s
      → bound begin_mask begins (pos 0) d ≡ some (if d == axis then pos j else pos 0)
  pub stops :
      (d n : ℕ)
      → get_elem? s d ≡ some n
      → bound end_mask ends (pos n) d ≡ some (if d == axis then pos (suc j) else pos n)
  pub added : (d : ℕ) → d < length s → get_elem? new_axis_mask d ≡ some (pos 0)
  pub removed :
      (d : ℕ)
      → d < length s
      → get_elem? shrink_axis_mask d ≡ some (if d == axis then pos 1 else pos 0)

one_entry-get :
    (rank : ℕ) (fill : ℤ) (axis : ℕ) (x : ℤ) (d : ℕ)
    → axis < rank
    → d < rank
    → get_elem? (one_entry rank fill axis x) d ≡ some (if d == axis then x else fill)
one_entry-get rank fill axis x d h k =
    let long = length-replicate rank fill in
    let there = get_elem?-set (replicate rank fill) axis d x (omega (arith, long)) in
    let blank = get_elem?-replicate rank d fill k in
    elim (Bool-cases (d == axis)) [
      | inl own ↦ ground (arith, own, there)
      | inr other ↦ ground (arith, other, there, blank)
    ]

length-one_entry :
    (rank : ℕ) (fill : ℤ) (axis : ℕ) (x : ℤ) → length (one_entry rank fill axis x) ≡ rank
length-one_entry rank fill axis x =
    length-set (replicate rank fill) axis x ∙ length-replicate rank fill

pub index_within-ok :
    (rank : ℕ) (a : ℤ) (axis : ℕ) → index_within rank a ≡ ok axis → (a ≡ pos axis) × (axis < rank)
index_within-ok rank (negsuc i) axis h = absurd (ground arith)
index_within-ok rank (pos i) axis h = elim (Bool-cases (ltb i rank)) [
  | inl inside ↦ let same : i ≡ axis = ok_inj (ground arith) in (ap pos same, ground arith)
  | inr outside ↦ absurd (ground arith)
]

module _ (lib : Library) (x : lib.Value) (s : List ℕ) (axis j : ℕ) (inside : axis < length s) where
  pub unpack_slice-IsPart :
      (v : lib.Value) → unpack_slice lib x (length s) axis j ≡ ok v → IsPart lib x s axis j v
  unfolding unpack_slice index_vector
  unpack_slice-IsPart v h =
      let rank = length s in
      let entry : (fill a : ℤ) (d : ℕ)
          → d < rank
          → get_elem? (one_entry rank fill axis a) d ≡ some (if d == axis then a else fill) =
        λ fill a d k. one_entry-get rank fill axis a d inside k in
      let sized : (a : ℤ) → length (one_entry rank (pos 0) axis a) ≡ rank =
        length-one_entry rank (pos 0) axis in
      let (b, made_b, h₁) = chain-ok (index_vector lib (one_entry rank (pos 0) axis (pos j))) _ h in
      let (e, made_e, h₂) =
        chain-ok (index_vector lib (one_entry rank (pos 0) axis (pos (suc j)))) _ h₁ in
      record {
        begin = b;
        end = e;
        begins = one_entry rank (pos 0) axis (pos j);
        ends = one_entry rank (pos 0) axis (pos (suc j));
        begin_mask = one_entry rank (pos 1) axis (pos 0);
        end_mask = one_entry rank (pos 1) axis (pos 0);
        new_axis_mask = replicate rank (pos 0);
        shrink_axis_mask = one_entry rank (pos 0) axis (pos 1);
        begin_made =
            subst
              (λ z.
                lib.construct "Constant" [] (
                  element ElementType.i64
                  ∷ shape (z ∷ [])
                  ∷ numbers (one_entry rank (pos 0) axis (pos j))
                  ∷ [])
                ≡ ok b)
              (sized (pos j)) made_b;
        end_made =
            subst
              (λ z.
                lib.construct "Constant" [] (
                  element ElementType.i64
                  ∷ shape (z ∷ [])
                  ∷ numbers (one_entry rank (pos 0) axis (pos (suc j)))
                  ∷ [])
                ≡ ok e)
              (sized (pos (suc j))) made_e;
        made = h₂;
        starts = λ d k. elim (Bool-cases (d == axis)) [
          | inl own ↦ ground (arith, own, entry (pos 1) (pos 0) d k, entry (pos 0) (pos j) d k)
          | inr other ↦ ground (arith, other, entry (pos 1) (pos 0) d k)
        ];
        stops = λ d n at.
            let k = get_elem?-bound s d n at in
            elim (Bool-cases (d == axis)) [
              | inl own ↦
                  ground (arith, own, entry (pos 1) (pos 0) d k, entry (pos 0) (pos (suc j)) d k)
              | inr other ↦ ground (arith, other, entry (pos 1) (pos 0) d k)
            ];
        added = λ d k. get_elem?-replicate rank d (pos 0) k;
        removed = λ d k. entry (pos 0) (pos 1) d k;
      }
