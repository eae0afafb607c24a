-- ===== src/Builder/FrameStacks.antt =====
-- The handlers of Pack, Unpack and IsFinite write only the entry of their op.
use ngraph.Prelude.{ℕ, zero, suc, String, length}
use ngraph.Prelude.Int.{ℤ}
use ngraph.Builder.Library.{Library}
use ngraph.Builder.Inputs.{OpMap, save_ng_op}
use ngraph.Builder.Parts.{rounds}
use ngraph.Builder.Stacks.{
  save_slices, translate_pack_op, translate_unpack_op, translate_is_finite_op,
}
use ngraph.Builder.Saves.{Saves, Saves-value, Saves-bind, Saves-refl, Saves-after}
use ngraph.Builder.Frame.{IsSaving}

module _ (lib : Library) where
  pub translate_pack_op-IsSaving : IsSaving lib (translate_pack_op lib)
  unfolding translate_pack_op
  translate_pack_op-IsSaving g statics op m = Saves-bind _ _ (λ _.
      Saves-bind _ _
        (λ _. Saves-bind _ _ (λ _. Saves-bind _ _ (λ _. Saves-bind _ _ (λ _. Saves-value _)))))

  save_slices-Saves :
      (m : OpMap lib.Value) (name : String) (x : lib.Value) (rank : ℕ) (tf_axis : ℤ) (i k : ℕ)
      → Saves name m (save_slices lib m name x rank tf_axis i k)
  unfolding save_slices
  save_slices-Saves m name x rank tf_axis i zero = Saves-refl m
  save_slices-Saves m name x rank tf_axis i (suc k) = Saves-bind _ _ (λ _.
      Saves-bind _ _ (λ v.
        Saves-after v (save_slices-Saves (save_ng_op m name v) name x rank tf_axis (suc i) k)))

  pub translate_unpack_op-IsSaving : IsSaving lib (translate_unpack_op lib)
  unfolding translate_unpack_op
  translate_unpack_op-IsSaving g statics op m = Saves-bind _ _ (λ _. Saves-bind _ _ (λ x.
      Saves-bind _ _ (λ tf_axis. Saves-bind _ _ (λ num.
        Saves-bind _ _
          (λ s. save_slices-Saves m op.name x (length s) tf_axis 0 (rounds lib num))))))

  pub translate_is_finite_op-IsSaving : IsSaving lib (translate_is_finite_op lib)
  unfolding translate_is_finite_op
  translate_is_finite_op-IsSaving g statics op m = Saves-bind _ _ (λ _. Saves-bind _ _ (λ _.
      Saves-bind _ _ (λ _. Saves-bind _ _ (λ _.
        Saves-bind _ _
          (λ _. Saves-bind _ _ (λ _. Saves-bind _ _ (λ _. Saves-bind _ _ (λ _. Saves-value _))))))))
