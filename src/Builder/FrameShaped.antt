-- ===== src/Builder/FrameShaped.antt =====
-- The handlers that read shapes or static inputs write only the entry of their op.
use ngraph.Prelude.{String, Bool, List, [], ◌∷◌, length}
use ngraph.Prelude.Int.{ℤ}
use ngraph.Prelude.Status.{Status}
use ngraph.Builder.Library.{Library, flag}
use ngraph.Builder.Inputs.{OpMap}
use ngraph.Builder.Shaped.{
  translate_log1p_op, translate_reciprocal_op, translate_rsqrt_op, translate_zeros_like_op,
  translate_l2_loss_op, translate_log_softmax_op, translate_softmax_op, translate_rank_op,
  translate_size_op, translate_shape_op, translate_squeeze_op, translate_expand_dims_op,
  translate_reshape_op, translate_tile_op, translate_gather_v2_op, translate_one_hot_op,
  translate_concat_v2_op,
}
use ngraph.Builder.Reductions.{
  translate_reduce_with, translate_direct_reduce_op, translate_arg_min_max, translate_arg_max_op,
  translate_arg_min_op,
}
use ngraph.Builder.Parts.{
  rounds, save_split, translate_split_op, translate_split_v_op, translate_top_k_v2_op,
}
use ngraph.Builder.Saves.{
  Saves, Saves-value, Saves-two, Saves-bind, Saves-err, Saves-if, Saves-outputs,
}
use ngraph.Builder.Frame.{IsSaving, translate_unary_with-IsSaving}

module _ (lib : Library) where
  pub translate_log1p_op-IsSaving : IsSaving lib (translate_log1p_op lib)
  unfolding translate_log1p_op
  translate_log1p_op-IsSaving = translate_unary_with-IsSaving lib _

  pub translate_reciprocal_op-IsSaving : IsSaving lib (translate_reciprocal_op lib)
  unfolding translate_reciprocal_op
  translate_reciprocal_op-IsSaving = translate_unary_with-IsSaving lib _

  pub translate_rsqrt_op-IsSaving : IsSaving lib (translate_rsqrt_op lib)
  unfolding translate_rsqrt_op
  translate_rsqrt_op-IsSaving = translate_unary_with-IsSaving lib _

  pub translate_zeros_like_op-IsSaving : IsSaving lib (translate_zeros_like_op lib)
  unfolding translate_zeros_like_op
  translate_zeros_like_op-IsSaving g statics op m =
      Saves-bind _ _ (λ _. Saves-bind _ _ (λ _. Saves-value _))

  pub translate_l2_loss_op-IsSaving : IsSaving lib (translate_l2_loss_op lib)
  unfolding translate_l2_loss_op
  translate_l2_loss_op-IsSaving g statics op m = Saves-bind _ _ (λ _. Saves-bind _ _ (λ _.
      Saves-bind _ _ (λ _.
        Saves-bind _ _
          (λ _. Saves-bind _ _ (λ _. Saves-bind _ _ (λ _. Saves-bind _ _ (λ _. Saves-value _)))))))

  pub translate_log_softmax_op-IsSaving : IsSaving lib (translate_log_softmax_op lib)
  unfolding translate_log_softmax_op
  translate_log_softmax_op-IsSaving g statics op m =
      Saves-bind _ _ (λ _. Saves-bind _ _ (λ _. Saves-bind _ _ (λ _. Saves-value _)))

  pub translate_softmax_op-IsSaving : IsSaving lib (translate_softmax_op lib)
  unfolding translate_softmax_op
  translate_softmax_op-IsSaving g statics op m =
      Saves-bind _ _
        (λ _. Saves-bind _ _ (λ _. Saves-if _ (Saves-err _) (Saves-bind _ _ (λ _. Saves-value _))))

  pub translate_rank_op-IsSaving : IsSaving lib (translate_rank_op lib)
  unfolding translate_rank_op
  translate_rank_op-IsSaving g statics op m =
      Saves-bind _ _ (λ _. Saves-bind _ _ (λ _. Saves-bind _ _ (λ _. Saves-value _)))

  pub translate_size_op-IsSaving : IsSaving lib (translate_size_op lib)
  unfolding translate_size_op
  translate_size_op-IsSaving g statics op m = Saves-bind _ _ (λ _.
      Saves-bind _ _
        (λ _. Saves-bind _ _ (λ _. Saves-bind _ _ (λ _. Saves-bind _ _ (λ _. Saves-value _)))))

  pub translate_shape_op-IsSaving : IsSaving lib (translate_shape_op lib)
  unfolding translate_shape_op
  translate_shape_op-IsSaving g statics op m =
      Saves-bind _ _
        (λ _. Saves-bind _ _ (λ _. Saves-bind _ _ (λ _. Saves-bind _ _ (λ _. Saves-value _))))

  pub translate_squeeze_op-IsSaving : IsSaving lib (translate_squeeze_op lib)
  unfolding translate_squeeze_op
  translate_squeeze_op-IsSaving g statics op m = Saves-bind _ _ (λ _.
      Saves-bind _ _
        (λ _. Saves-bind _ _ (λ _. Saves-bind _ _ (λ _. Saves-bind _ _ (λ _. Saves-value _)))))

  pub translate_expand_dims_op-IsSaving : IsSaving lib (translate_expand_dims_op lib)
  unfolding translate_expand_dims_op
  translate_expand_dims_op-IsSaving g statics op m =
      Saves-bind _ _
        (λ _. Saves-bind _ _ (λ _. Saves-bind _ _ (λ _. Saves-bind _ _ (λ _. Saves-value _))))

  pub translate_reshape_op-IsSaving : IsSaving lib (translate_reshape_op lib)
  unfolding translate_reshape_op
  translate_reshape_op-IsSaving g statics op m =
      Saves-bind _ _
        (λ _. Saves-bind _ _ (λ _. Saves-bind _ _ (λ _. Saves-bind _ _ (λ _. Saves-value _))))

  pub translate_tile_op-IsSaving : IsSaving lib (translate_tile_op lib)
  unfolding translate_tile_op
  translate_tile_op-IsSaving g statics op m =
      Saves-bind _ _
        (λ _. Saves-bind _ _ (λ _. Saves-bind _ _ (λ _. Saves-bind _ _ (λ _. Saves-value _))))

  pub translate_gather_v2_op-IsSaving : IsSaving lib (translate_gather_v2_op lib)
  unfolding translate_gather_v2_op
  translate_gather_v2_op-IsSaving g statics op m = Saves-bind _ _ (λ _. Saves-bind _ _ (λ _.
      Saves-if _ (Saves-err _) (
        Saves-bind _ _ (λ _. Saves-bind _ _ (λ _.
          Saves-if _ (Saves-bind _ _ (λ _. Saves-bind _ _ (λ _. Saves-value _))) (Saves-err _))))))

  pub translate_one_hot_op-IsSaving : IsSaving lib (translate_one_hot_op lib)
  unfolding translate_one_hot_op
  translate_one_hot_op-IsSaving g statics op m = Saves-bind _ _ (λ _. Saves-bind _ _ (λ _.
      Saves-bind _ _ (λ _.
        Saves-if _ (Saves-bind _ _ (λ _. Saves-bind _ _ (λ _. Saves-bind _ _ (λ _. Saves-value _))))
          (Saves-err _))))

  pub translate_concat_v2_op-IsSaving : IsSaving lib (translate_concat_v2_op lib)
  unfolding translate_concat_v2_op
  translate_concat_v2_op-IsSaving g statics op m = Saves-bind _ _ (λ _. Saves-bind _ _ (λ _.
      Saves-bind _ _
        (λ _. Saves-bind _ _ (λ _. Saves-bind _ _ (λ _. Saves-bind _ _ (λ _. Saves-value _))))))

  translate_reduce_with-IsSaving :
      (f : lib.Value → lib.Value → Bool → Status lib.Value)
      → IsSaving lib (translate_reduce_with lib f)
  unfolding translate_reduce_with
  translate_reduce_with-IsSaving f g statics op m = Saves-bind _ _ (λ _. Saves-bind _ _ (λ _.
      Saves-bind _ _
        (λ _. Saves-bind _ _ (λ _. Saves-bind _ _ (λ _. Saves-bind _ _ (λ _. Saves-value _))))))

  pub translate_direct_reduce_op-IsSaving :
      (kind : String) → IsSaving lib (translate_direct_reduce_op lib kind)
  unfolding translate_direct_reduce_op
  translate_direct_reduce_op-IsSaving kind =
      translate_reduce_with-IsSaving
        (λ x axes keep. lib.construct kind (x ∷ axes ∷ []) (flag keep ∷ []))

  translate_arg_min_max-IsSaving : (mode : String) → IsSaving lib (translate_arg_min_max lib mode)
  unfolding translate_arg_min_max
  translate_arg_min_max-IsSaving mode g statics op m = Saves-bind _ _ (λ _. Saves-bind _ _ (λ _.
      Saves-bind _ _ (λ _.
        Saves-if _
          (Saves-bind _ _ (λ _. Saves-bind _ _ (λ _. Saves-bind _ _ (λ _. Saves-bind _ _ (λ _.
            Saves-bind _ _ (λ _. Saves-bind _ _ (λ _. Saves-bind _ _ (λ _. Saves-value _))))))))
          (Saves-err _))))

  pub translate_arg_max_op-IsSaving : IsSaving lib (translate_arg_max_op lib)
  unfolding translate_arg_max_op
  translate_arg_max_op-IsSaving = translate_arg_min_max-IsSaving "max"

  pub translate_arg_min_op-IsSaving : IsSaving lib (translate_arg_min_op lib)
  unfolding translate_arg_min_op
  translate_arg_min_op-IsSaving = translate_arg_min_max-IsSaving "min"

  pub translate_split_op-IsSaving : IsSaving lib (translate_split_op lib)
  unfolding translate_split_op
  translate_split_op-IsSaving g statics op m = Saves-bind _ _ (λ _. Saves-bind _ _ (λ num.
      Saves-bind _ _ (λ _. Saves-bind _ _ (λ _. Saves-bind _ _ (λ _.
        Saves-bind _ _
          (λ _. Saves-bind _ _ (λ v. Saves-outputs lib op.name m v 0 (rounds lib num))))))))

  save_split-Saves :
      (m : OpMap lib.Value) (name : String) (x axis : lib.Value) (lengths : List ℤ)
      → Saves name m (save_split lib m name x axis lengths)
  unfolding save_split
  save_split-Saves m name x axis lengths = Saves-bind _ _ (λ _.
      Saves-if _ (Saves-value x)
        (Saves-bind _ _ (λ v. Saves-outputs lib name m v 0 (length lengths))))

  pub translate_split_v_op-IsSaving : IsSaving lib (translate_split_v_op lib)
  unfolding translate_split_v_op
  translate_split_v_op-IsSaving g statics op m = Saves-bind _ _ (λ _. Saves-bind _ _ (λ _.
      Saves-bind _ _ (λ _.
        Saves-if _
          (Saves-bind _ _ (λ _. Saves-bind _ _ (λ _. Saves-bind _ _ (λ _.
            Saves-bind _ _ (λ _.
              Saves-bind _ _ (λ _. Saves-bind _ _ (λ _. save_split-Saves m op.name _ _ _)))))))
          (Saves-err _))))

  pub translate_top_k_v2_op-IsSaving : IsSaving lib (translate_top_k_v2_op lib)
  unfolding translate_top_k_v2_op
  translate_top_k_v2_op-IsSaving g statics op m = Saves-bind _ _ (λ _. Saves-bind _ _ (λ _.
      Saves-bind _ _ (λ _. Saves-bind _ _ (λ _.
        Saves-bind _ _
          (λ _. Saves-bind _ _ (λ _. Saves-bind _ _ (λ _. Saves-bind _ _ (λ _. Saves-two _ _))))))))
