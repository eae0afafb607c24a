-- ===== src/Mark/Statics.antt =====
-- The attribute setters: GetAttributeSetters and both SetStaticInputs of
-- ngraph_bridge/mark_for_clustering.cc. Every setter of the map sets static inputs.
use ngraph.Prelude.{ℕ, String, List, [], ◌∷◌, map, string_eq}
use ngraph.Prelude.Int.{ℤ, pos, negsuc, ◌+ℤ◌}
use ngraph.Graph.{Node, ints, add_attr}

unfoldable pub get_attribute_setters : List (String × List ℤ)
get_attribute_setters =
    ("Any", pos 1 ∷ [])
    ∷ ("All", pos 1 ∷ [])
    ∷ ("ArgMax", pos 1 ∷ [])
    ∷ ("ArgMin", pos 1 ∷ [])
    ∷ ("ConcatV2", negsuc 0 ∷ [])
    ∷ ("Conv2DBackpropInput", pos 0 ∷ [])
    ∷ ("ExpandDims", pos 1 ∷ [])
    ∷ ("GatherV2", pos 2 ∷ [])
    ∷ ("Max", pos 1 ∷ [])
    ∷ ("Mean", pos 1 ∷ [])
    ∷ ("Min", pos 1 ∷ [])
    ∷ ("MirrorPad", pos 1 ∷ [])
    ∷ ("NonMaxSuppressionV2", pos 2 ∷ [])
    ∷ ("OneHot", pos 1 ∷ [])
    ∷ ("Pad", pos 1 ∷ [])
    ∷ ("PadV2", pos 1 ∷ [])
    ∷ ("Prod", pos 1 ∷ [])
    ∷ ("Reshape", pos 1 ∷ [])
    ∷ ("Slice", pos 1 ∷ pos 2 ∷ [])
    ∷ ("Split", pos 0 ∷ [])
    ∷ ("SplitV", pos 1 ∷ pos 2 ∷ [])
    ∷ ("StridedSlice", pos 1 ∷ pos 2 ∷ pos 3 ∷ [])
    ∷ ("Sum", pos 1 ∷ [])
    ∷ ("TopKV2", pos 1 ∷ [])
    ∷ ("Tile", pos 1 ∷ [])
    ∷ ("Range", pos 0 ∷ pos 1 ∷ pos 2 ∷ [])
    ∷ []

-- A negative index is counted from the right.
unfoldable pub adjust : ℕ → ℤ → ℤ
unfolding ◌+ℤ◌
adjust num_inputs (pos i) = pos i
adjust num_inputs (negsuc i) = pos num_inputs +ℤ negsuc i

unfoldable pub set_static_inputs : List ℤ → Node → Node
unfolding add_attr adjust
set_static_inputs indices n =
    add_attr n "_ngraph_static_inputs" (ints (map (adjust n.num_inputs) indices))
