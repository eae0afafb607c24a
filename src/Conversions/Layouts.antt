-- ===== src/Conversions/Layouts.antt =====
-- The two changes of layout undo each other, and the spatial sizes do not depend on the layout.
use ngraph.Prelude.{◌≡◌, refl, Bool, true, false, some, List, [], ◌∷◌, arith}
use mathlib.Core.Option
use ngraph.Conversions.{nhwc_to_nchw, nchw_to_nhwc, nhwc_to_hw, transpose}

-- A shape of any rank that is brought to channels-first and back is the shape that it was, for either
-- value of the flag, and neither step reads outside the shape.
pub nchw_to_nhwc-nhwc_to_nchw {ℓ} :
    {A : Type ℓ} (is_nhwc : Bool) (s : List A)
    → (t : List A) × (nhwc_to_nchw is_nhwc s ≡ some t) × (nchw_to_nhwc is_nhwc t ≡ some s)
unfolding nhwc_to_nchw nchw_to_nhwc transpose
nchw_to_nhwc-nhwc_to_nchw false s = (s, refl, refl)
nchw_to_nhwc-nhwc_to_nchw true [] = ([], refl, refl)
nchw_to_nhwc-nhwc_to_nchw true (a ∷ []) = (a ∷ [], refl, refl)
nchw_to_nhwc-nhwc_to_nchw true (a ∷ b ∷ []) = (a ∷ b ∷ [], refl, refl)
nchw_to_nhwc-nhwc_to_nchw true (a ∷ b ∷ c ∷ []) = (a ∷ b ∷ c ∷ [], refl, refl)
nchw_to_nhwc-nhwc_to_nchw true (a ∷ b ∷ c ∷ d ∷ []) = (a ∷ d ∷ b ∷ c ∷ [], refl, refl)
nchw_to_nhwc-nhwc_to_nchw true (a ∷ b ∷ c ∷ d ∷ e ∷ []) = (a ∷ e ∷ b ∷ c ∷ d ∷ [], refl, refl)
nchw_to_nhwc-nhwc_to_nchw true (a ∷ b ∷ c ∷ d ∷ e ∷ f ∷ s) =
    (a ∷ b ∷ c ∷ d ∷ e ∷ f ∷ s, ground arith, ground arith)

-- For an image, and for a volume, in channels-last layout, the spatial sizes that are read from its
-- shape are those that are read, as channels-first, from its shape in channels-first layout, and no
-- read is outside of the shape.
pub nhwc_to_hw-nhwc_to_nchw {ℓ} :
    {A : Type ℓ} (n d h w c x y z : A)
    → (Option.map (λ t. nhwc_to_hw false t (x ∷ y ∷ [])) (nhwc_to_nchw true (n ∷ h ∷ w ∷ c ∷ []))
        ≡ some (nhwc_to_hw true (n ∷ h ∷ w ∷ c ∷ []) (x ∷ y ∷ [])))
      × (Option.map
            (λ t. nhwc_to_hw false t (x ∷ y ∷ z ∷ []))
            (nhwc_to_nchw true (n ∷ d ∷ h ∷ w ∷ c ∷ []))
          ≡ some (nhwc_to_hw true (n ∷ d ∷ h ∷ w ∷ c ∷ []) (x ∷ y ∷ z ∷ [])))
      × (nhwc_to_hw true (n ∷ h ∷ w ∷ c ∷ []) (x ∷ y ∷ []) ≡ some (h ∷ w ∷ []))
      × (nhwc_to_hw true (n ∷ d ∷ h ∷ w ∷ c ∷ []) (x ∷ y ∷ z ∷ []) ≡ some (d ∷ h ∷ w ∷ []))
unfolding nhwc_to_nchw nhwc_to_hw transpose
nhwc_to_hw-nhwc_to_nchw n d h w c x y z = (refl, refl, refl, refl)
