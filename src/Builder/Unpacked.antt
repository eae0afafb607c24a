-- ===== src/Builder/Unpacked.antt =====
-- The outputs that TranslateUnpackOp saves.
use ngraph.Prelude.{
  false, ℕ, zero, suc, ◌+◌, String, ◌≡◌, refl, sym, ap, ◌∙◌, Option, some, List, [], ◌∷◌, ◌++◌,
  string_eq, arith, length, get_elem?, lookup, ◌<◌, ◌==◌, lookup-assign, beq_refl,
}
use ngraph.Prelude.Int.{ℤ, pos}
use ngraph.Prelude.Status.{ok}
use ngraph.Graph.{Node, Graph, get_int}
use ngraph.Builder.Library.{Library}
use ngraph.Builder.Chain.{chain-ok}
use ngraph.Builder.Inputs.{OpMap, entry, require, save_ng_op, get_input_node, validate_input_count}
use ngraph.Builder.Parts.{rounds}
use ngraph.Builder.Stacks.{index_within, unpack_slice, save_slices, translate_unpack_op}
use ngraph.Builder.Slices.{IsPart, index_within-ok, unpack_slice-IsPart}
use ngraph.Builder.FrameStacks.{translate_unpack_op-IsSaving}
use ngraph.Builder.Saves.{append_nil, append_assoc}
use ngraph.Encapsulator.Steps.{ok_inj}

entry-save :
    {V : Type 0} (m : OpMap V) (name : String) (v : V)
    → entry (save_ng_op m name v) name ≡ entry m name ++ v ∷ []
unfolding save_ng_op
entry-save m name v =
    let put = lookup-assign name name (entry m name ++ v ∷ []) m in
    ground (arith, put, beq_refl name)

module _ (lib : Library) (x : lib.Value) (rank : ℕ) (tf_axis : ℤ) where
  -- the values are the parts `i`, `i + 1`, ... along an axis of the value
  abbrev AreSlices : ℕ → List lib.Value → Type 0
  AreSlices i vs =
      (j : ℕ) (v : lib.Value)
      → get_elem? vs j ≡ some v
      → (axis : ℕ) × (index_within rank tf_axis ≡ ok axis)
        × (unpack_slice lib x rank axis (i + j) ≡ ok v)

  AreSlices-cons :
      (i axis : ℕ) (v : lib.Value) (vs : List lib.Value)
      → index_within rank tf_axis ≡ ok axis
      → unpack_slice lib x rank axis i ≡ ok v
      → AreSlices (suc i) vs
      → AreSlices i (v ∷ vs)
  AreSlices-cons i axis v vs inside made later zero w h =
      (axis, inside, ap (unpack_slice lib x rank axis) (omega arith) ∙ made ∙ ground arith)
  AreSlices-cons i axis v vs inside made later (suc j) w h =
      let (b, p, q) = later j w h in (b, p, ap (unpack_slice lib x rank b) (omega arith) ∙ q)

  save_slices-AreSlices :
      (m m' : OpMap lib.Value) (name : String) (i k : ℕ)
      → save_slices lib m name x rank tf_axis i k ≡ ok m'
      → (vs : List lib.Value) × (entry m' name ≡ entry m name ++ vs)
        × (length vs ≡ k)
        × AreSlices i vs
  unfolding save_slices
  save_slices-AreSlices m m' name i zero h = (
    [],
    ap (λ z. entry z name) (sym (ok_inj h)) ∙ append_nil (entry m name),
    refl,
    λ j v at. absurd (ground arith),
  )
  save_slices-AreSlices m m' name i (suc k) h =
      let (axis, inside, h₁) = chain-ok (index_within rank tf_axis) _ h in
      let (v, made, h₂) = chain-ok (unpack_slice lib x rank axis i) _ h₁ in
      let (vs, grown, many, each) =
        save_slices-AreSlices (save_ng_op m name v) m' name (suc i) k h₂ in
      (
        v ∷ vs,
        grown ∙ ap (λ z. z ++ vs) (entry-save m name v) ∙ append_assoc (entry m name) (v ∷ []) vs,
        ap suc many,
        AreSlices-cons i axis v vs inside made each,
      )

-- the values are the parts 0, 1, ... of `x` along the axis, which is one of its dimensions
abbrev pub AreParts : (lib : Library) → lib.Value → List ℕ → ℤ → List lib.Value → Type 0
AreParts lib x s tf_axis vs =
    (j : ℕ) (v : lib.Value)
    → get_elem? vs j ≡ some v
    → (axis : ℕ) × (tf_axis ≡ pos axis) × (axis < length s) × IsPart lib x s axis j v

AreSlices-AreParts :
    (lib : Library) (x : lib.Value) (s : List ℕ) (tf_axis : ℤ) (vs : List lib.Value)
    → AreSlices lib x (length s) tf_axis 0 vs
    → AreParts lib x s tf_axis vs
AreSlices-AreParts lib x s tf_axis vs each j v h =
    let (axis, within, made) = each j v h in
    let (same, inside) = index_within-ok (length s) tf_axis axis within in
    let made' : unpack_slice lib x (length s) axis j ≡ ok v =
      ap (unpack_slice lib x (length s) axis) (omega arith) ∙ made in
    (axis, same, inside, unpack_slice-IsPart lib x s axis j inside v made')

-- When TranslateUnpackOp succeeds, the entries of the other ops are as they were, and the entry of its
-- op keeps its values and gets as many more as the attribute `num` says. The one at place `j` of these
-- is made as a strided slice of the input with steps of one, whose bounds and masks, read as nGraph
-- documents them, take the place `j` along the dimension of the attribute `axis` and every place along
-- the other dimensions, and remove that dimension and no other.
pub translate_unpack_op-slices :
    (lib : Library) (g : Graph) (statics : List (Option lib.Tensor)) (op : Node)
    (m m' : OpMap lib.Value)
    → translate_unpack_op lib g statics op m ≡ ok m'
    → (x : lib.Value) × (tf_axis : ℤ) × (num : ℤ) × (s : List ℕ) × (vs : List lib.Value)
      × (get_input_node g m op 0 ≡ ok x)
      × (require op "axis" get_int ≡ ok tf_axis)
      × (require op "num" get_int ≡ ok num)
      × (lib.get_shape x ≡ ok s)
      × (entry m' op.name ≡ entry m op.name ++ vs)
      × (length vs ≡ rounds lib num)
      × AreParts lib x s tf_axis vs
      × ((k : String) → (k == op.name) ≡ false → lookup k m' ≡ lookup k m)
unfolding translate_unpack_op
translate_unpack_op-slices lib g statics op m m' h =
    let (_, _, h₀) = chain-ok (validate_input_count op 1) _ h in
    let (x, read, h₁) = chain-ok (get_input_node g m op 0) _ h₀ in
    let (tf_axis, axis, h₂) = chain-ok (require op "axis" get_int) _ h₁ in
    let (num, outputs, h₃) = chain-ok (require op "num" get_int) _ h₂ in
    let (s, shaped, h₄) = chain-ok (lib.get_shape x) _ h₃ in
    let (vs, grown, many, each) =
      save_slices-AreSlices lib x (length s) tf_axis m m' op.name 0 (rounds lib num) h₄ in
    let parts = AreSlices-AreParts lib x s tf_axis vs each in
    let adds = (translate_unpack_op-IsSaving lib g statics op m).adds m' h in
    (x, tf_axis, num, s, vs, read, axis, outputs, shaped, grown, many, parts, adds.others)
