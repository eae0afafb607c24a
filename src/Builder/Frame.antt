-- ===== src/Builder/Frame.antt =====
-- Each handler writes only the entry of its op, and adds to it.
use ngraph.Prelude.{String, Option, List, [], ◌∷◌}
use ngraph.Prelude.Status.{Status}
use ngraph.Graph.{Node, Graph}
use ngraph.Builder.Library.{Library}
use ngraph.Builder.Inputs.{OpMap}
use ngraph.Builder.Elementwise.{
  Handler, translate_unary_with, translate_unary_op, translate_binary_with, translate_binary_op,
  translate_floor_div_op, translate_square_op, translate_add_n_op, translate_cast_op,
  translate_cumsum_op, translate_fill_op, translate_gather_op, translate_identity_op,
  translate_mat_mul_op, translate_relu6_op, translate_transpose_op, translate_xdivy_op,
  translate_select_op, translate_where_op,
}
use ngraph.Builder.Saves.{Saves, Saves-value, Saves-bind, Saves-err, Saves-uncons}

abbrev pub IsSaving : (lib : Library) → Handler lib → Type 0
IsSaving lib h =
    (g : Graph) (statics : List (Option lib.Tensor)) (op : Node) (m : OpMap lib.Value)
    → Saves op.name m (h g statics op m)

module _ (lib : Library) where
  pub translate_unary_with-IsSaving :
      (f : lib.Value → Status lib.Value) → IsSaving lib (translate_unary_with lib f)
  unfolding translate_unary_with
  translate_unary_with-IsSaving f g statics op m =
      Saves-bind _ _ (λ _. Saves-bind _ _ (λ _. Saves-value _))

  pub translate_unary_op-IsSaving : (kind : String) → IsSaving lib (translate_unary_op lib kind)
  unfolding translate_unary_op
  translate_unary_op-IsSaving kind =
      translate_unary_with-IsSaving (λ x. lib.construct kind (x ∷ []) [])

  translate_binary_with-IsSaving :
      (f : lib.Value → lib.Value → Status lib.Value) → IsSaving lib (translate_binary_with lib f)
  unfolding translate_binary_with
  translate_binary_with-IsSaving f g statics op m =
      Saves-bind _ _ (λ _. Saves-bind _ _ (λ _. Saves-value _))

  pub translate_binary_op-IsSaving : (kind : String) → IsSaving lib (translate_binary_op lib kind)
  unfolding translate_binary_op
  translate_binary_op-IsSaving kind =
      translate_binary_with-IsSaving (λ a b. lib.construct kind (a ∷ b ∷ []) [])

  pub translate_floor_div_op-IsSaving : IsSaving lib (translate_floor_div_op lib)
  unfolding translate_floor_div_op
  translate_floor_div_op-IsSaving = translate_binary_with-IsSaving _

  pub translate_square_op-IsSaving : IsSaving lib (translate_square_op lib)
  unfolding translate_square_op
  translate_square_op-IsSaving = translate_unary_with-IsSaving _

  pub translate_add_n_op-IsSaving : IsSaving lib (translate_add_n_op lib)
  unfolding translate_add_n_op
  translate_add_n_op-IsSaving g statics op m =
      Saves-bind _ _
        (λ vs. Saves-uncons vs (Saves-err _) (λ v rest. Saves-bind _ _ (λ _. Saves-value _)))

  pub translate_cast_op-IsSaving : IsSaving lib (translate_cast_op lib)
  unfolding translate_cast_op
  translate_cast_op-IsSaving g statics op m =
      Saves-bind _ _
        (λ _. Saves-bind _ _ (λ _. Saves-bind _ _ (λ _. Saves-bind _ _ (λ _. Saves-value _))))

  pub translate_cumsum_op-IsSaving : IsSaving lib (translate_cumsum_op lib)
  unfolding translate_cumsum_op
  translate_cumsum_op-IsSaving g statics op m =
      Saves-bind _ _
        (λ _. Saves-bind _ _ (λ _. Saves-bind _ _ (λ _. Saves-bind _ _ (λ _. Saves-value _))))

  pub translate_fill_op-IsSaving : IsSaving lib (translate_fill_op lib)
  unfolding translate_fill_op
  translate_fill_op-IsSaving g statics op m =
      Saves-bind _ _ (λ _. Saves-bind _ _ (λ _. Saves-value _))

  pub translate_gather_op-IsSaving : IsSaving lib (translate_gather_op lib)
  unfolding translate_gather_op
  translate_gather_op-IsSaving g statics op m =
      Saves-bind _ _ (λ _. Saves-bind _ _ (λ _. Saves-bind _ _ (λ _. Saves-value _)))

  pub translate_identity_op-IsSaving : IsSaving lib (translate_identity_op lib)
  unfolding translate_identity_op
  translate_identity_op-IsSaving g statics op m = Saves-bind _ _ (λ _. Saves-value _)

  pub translate_mat_mul_op-IsSaving : IsSaving lib (translate_mat_mul_op lib)
  unfolding translate_mat_mul_op
  translate_mat_mul_op-IsSaving g statics op m =
      Saves-bind _ _
        (λ _. Saves-bind _ _ (λ _. Saves-bind _ _ (λ _. Saves-bind _ _ (λ _. Saves-value _))))

  pub translate_relu6_op-IsSaving : IsSaving lib (translate_relu6_op lib)
  unfolding translate_relu6_op
  translate_relu6_op-IsSaving g statics op m =
      Saves-bind _ _ (λ _. Saves-bind _ _ (λ _. Saves-value _))

  pub translate_transpose_op-IsSaving : IsSaving lib (translate_transpose_op lib)
  unfolding translate_transpose_op
  translate_transpose_op-IsSaving g statics op m =
      Saves-bind _ _ (λ _. Saves-bind _ _ (λ _. Saves-value _))

  pub translate_xdivy_op-IsSaving : IsSaving lib (translate_xdivy_op lib)
  unfolding translate_xdivy_op
  translate_xdivy_op-IsSaving g statics op m = Saves-bind _ _ (λ _.
      Saves-bind _ _
        (λ _. Saves-bind _ _ (λ _. Saves-bind _ _ (λ _. Saves-bind _ _ (λ _. Saves-value _)))))

  pub translate_select_op-IsSaving : IsSaving lib (translate_select_op lib)
  unfolding translate_select_op
  translate_select_op-IsSaving g statics op m =
      Saves-bind _ _ (λ _. Saves-bind _ _ (λ _. Saves-value _))

  pub translate_where_op-IsSaving : IsSaving lib (translate_where_op lib)
  unfolding translate_where_op
  translate_where_op-IsSaving g statics op m =
      Saves-bind _ _
        (λ _. Saves-bind _ _ (λ _. Saves-bind _ _ (λ _. Saves-bind _ _ (λ _. Saves-value _))))
