-- ===== src/Conversions.antt =====
-- The changes of layout, ngraph_bridge/ngraph_conversions.{h,cc}, as they act on a shape: a transpose
-- of the nGraph library with some axis order gives the shape that the code works out beside it.
pub mod Layouts
use ngraph.Prelude.{
  ℕ, suc, Bool, Option, none, some, List, [], ◌∷◌, ◌==◌, nat_eq, if◌then◌else◌, leb, length,
  get_elem?, set,
}

-- `s[a]` outside the vector is undefined: no result
unfoldable pub transpose {ℓ} : {A : Type ℓ} → List ℕ → List A → Option (List A)
transpose [] s = some []
transpose (a ∷ order) s = elim (get_elem? s a) [
  | none ↦ none
  | some x ↦ elim (transpose order s) [ none ↦ none | some rest ↦ some (x ∷ rest) ]
]

abbrev pub to_nchw_order : List ℕ
to_nchw_order = 0 ∷ 3 ∷ 1 ∷ 2 ∷ []

abbrev pub to_ncdhw_order : List ℕ
to_ncdhw_order = 0 ∷ 4 ∷ 1 ∷ 2 ∷ 3 ∷ []

abbrev pub to_nhwc_order : List ℕ
to_nhwc_order = 0 ∷ 2 ∷ 3 ∷ 1 ∷ []

abbrev pub to_ndhwc_order : List ℕ
to_ndhwc_order = 0 ∷ 2 ∷ 3 ∷ 4 ∷ 1 ∷ []

-- The tracing information is left out.
unfoldable pub nhwc_to_nchw {ℓ} : {A : Type ℓ} → Bool → List A → Option (List A)
unfolding transpose
nhwc_to_nchw is_nhwc s =
    if is_nhwc
    then if length s == 4
      then transpose to_nchw_order s
      else if length s == 5
      then transpose to_ncdhw_order s
      else some s
    else some s

unfoldable pub nchw_to_nhwc {ℓ} : {A : Type ℓ} → Bool → List A → Option (List A)
unfolding transpose
nchw_to_nhwc is_nhwc s =
    if is_nhwc
    then if length s == 4
      then transpose to_nhwc_order s
      else if length s == 5
      then transpose to_ndhwc_order s
      else some s
    else some s

-- `dst[i] = src[j]`, undefined for a `src` without the entry
abbrev copy {ℓ} : {A : Type ℓ} → ℕ → ℕ → List A → List A → Option (List A)
copy i j src dst = elim (get_elem? src j) [ none ↦ none | some x ↦ some (set dst i x) ]

-- both functions of the name NHWCtoHW, and NCHWtoHW
unfoldable pub nhwc_to_hw {ℓ} : {A : Type ℓ} → Bool → List A → List A → Option (List A)
nhwc_to_hw is_nhwc src dst =
    let h = if is_nhwc then 1 else 2 in
    let two =
      if leb 2 (length dst)
      then elim (copy 0 h src dst) [ none ↦ none | some d ↦ copy 1 (suc h) src d ]
      else some dst in
    elim two [
      | none ↦ none
      | some d ↦ if leb 3 (length dst) then copy 2 (suc (suc h)) src d else some d
    ]
