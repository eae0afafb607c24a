-- ===== src/Builder/Parts.antt =====
-- The handlers of ngraph_bridge/ngraph_builder.cc that save several outputs: TranslateSplitOp,
-- TranslateSplitVOp and TranslateTopKV2Op.
use ngraph.Prelude.{
  ℕ, zero, suc, String, Bool, true, false, not, Option, none, some, List, [], ◌∷◌, ◌==◌, nat_eq,
  if◌then◌else◌, length, get_elem?, set,
}
use ngraph.Prelude.Int.{ℤ, pos, negsuc, ◌+ℤ◌, ltb_ℤ, int_eq}
use ngraph.Prelude.Words.{to_int, to_size_t}
use ngraph.Prelude.Status.{Status, ok, err, invalid_argument, fatal}
use ngraph.Graph.{dt_int32, dt_int64, get_int, get_flag}
use ngraph.Builder.Chain.{◌>>=◌, ◌>>◌}
use ngraph.Builder.Library.{Library, ElementType, element, shape, number, numbers, word}
use ngraph.Builder.Inputs.{
  OpMap, require, save_ng_op, get_input_node, validate_input_count, check_axis_dim_in_range,
}
use ngraph.Builder.Statics.{get_static_input_vector}
use ngraph.Builder.Elementwise.{Handler}
use ngraph.Builder.Shaped.{first, from_right}

-- the loop that adds the lengths up, in an `int`, and finds the place of a -1
unfoldable pub scan_lengths : ℕ → List ℤ → ℤ → Option ℕ → Status (ℤ × Option ℕ)
unfolding ◌+ℤ◌ to_int
scan_lengths i [] total idx = ok (total, idx)
scan_lengths i (l ∷ ls) total idx = elim (l == negsuc 0) [
  | false ↦ scan_lengths (suc i) ls (to_int (total +ℤ l)) idx
  | true ↦ elim idx [
    | none ↦ scan_lengths (suc i) ls total (some i)
    | some _ ↦ err invalid_argument
  ]
]

abbrev pub neg_ℤ : ℤ → ℤ
neg_ℤ (pos zero) = pos 0
neg_ℤ (pos (suc n)) = negsuc n
neg_ℤ (negsuc n) = pos (suc n)

-- The -1 is replaced only where `idx > 0`; the difference is a `size_t` that becomes an `int`.
unfoldable pub fill_length : ℕ → ℤ → Option ℕ → List ℤ → List ℤ
unfolding ◌+ℤ◌ to_int
fill_length dim total none lengths = lengths
fill_length dim total (some zero) lengths = lengths
fill_length dim total (some (suc i)) lengths = set lengths (suc i) (to_int (pos dim +ℤ neg_ℤ total))

-- the test after it, which compares as `size_t`s; `idx` is an index of the vector
unfoldable pub is_wrong : ℕ → ℤ → Option ℕ → List ℤ → Bool
unfolding to_size_t
is_wrong dim total none lengths = not (to_size_t total == dim)
is_wrong dim total (some i) lengths = elim (get_elem? lengths i) [
  | none ↦ true
  | some l ↦ ltb_ℤ l (pos 0)
]

-- The dimension is a `size_t`, and the lengths are `int`s.
unfoldable pub split_lengths : ℕ → List ℤ → Status (List ℤ)
unfolding scan_lengths fill_length is_wrong
split_lengths dim lengths = scan_lengths 0 lengths (pos 0) none >>= λ found.
    let filled = fill_length dim found.0 found.1 lengths in
    if is_wrong dim found.0 found.1 filled then err invalid_argument else ok filled

-- `shape[axis]`, which is undefined outside of the shape
unfoldable pub dimension : List ℕ → ℤ → Status ℕ
dimension s (negsuc i) = err fatal
dimension s (pos i) = elim (get_elem? s i) [ none ↦ err fatal | some d ↦ ok d ]

module _ (lib : Library) where
  -- the outputs `i`, `i + 1`, ... of a node, saved one after the other
  unfoldable pub save_outputs : OpMap lib.Value → String → lib.Value → ℕ → ℕ → OpMap lib.Value
  unfolding save_ng_op
  save_outputs m name v i zero = m
  save_outputs m name v i (suc k) =
      save_outputs (save_ng_op m name (lib.output v i)) name v (suc i) k

  -- `num_split` is positive where TensorFlow accepts the op; the loop runs for no negative number.
  abbrev pub rounds : ℤ → ℕ
  rounds (pos n) = n
  rounds (negsuc n) = 0

  unfoldable pub translate_split_op : Handler lib
  unfolding get_input_node get_int get_static_input_vector from_right save_outputs
  translate_split_op g statics op m = do
    x ← get_input_node g m op 1
    num_split ← require op "num_split" get_int
    s ← lib.get_shape x
    dims ← get_static_input_vector lib dt_int32 g statics op 0
    d ← first dims
    node ←
        lib.construct "Constant" []
          (element ElementType.u64 ∷ shape [] ∷ number (from_right (length s) d) ∷ [])
    v ← lib.construct "Split" (x ∷ node ∷ []) (number num_split ∷ [])
    ok (save_outputs m op.name v 0 (rounds num_split))

  -- one length is no split
  unfoldable pub save_split :
      OpMap lib.Value → String → lib.Value → lib.Value → List ℤ → Status (OpMap lib.Value)
  unfolding save_outputs save_ng_op
  save_split m name x axis lengths =
      lib.construct "Constant" []
        (element ElementType.i32 ∷ shape (length lengths ∷ []) ∷ numbers lengths ∷ [])
      >>= λ node. elim (length lengths == 1) [
        | true ↦ ok (save_ng_op m name x)
        | false ↦ do
          v ← lib.construct "VariadicSplit" (x ∷ axis ∷ node ∷ []) []
          ok (save_outputs m name v 0 (length lengths))
      ]

  unfoldable pub translate_split_v_op : Handler lib
  unfolding get_input_node get_static_input_vector check_axis_dim_in_range from_right dimension
      split_lengths save_split
  translate_split_v_op g statics op m = get_input_node g m op 0 >>= λ x. lib.get_shape x >>= λ s.
      get_static_input_vector lib dt_int64 g statics op 2 >>= λ dims. elim (length dims == 1) [
        | false ↦ err invalid_argument
        | true ↦ do
          check_axis_dim_in_range dims (length s)
          d ← first dims
          axis ←
              lib.construct "Constant" []
                (element ElementType.i32 ∷ shape [] ∷ number (from_right (length s) d) ∷ [])
          lengths ← get_static_input_vector lib dt_int32 g statics op 1
          dim ← dimension s (from_right (length s) d)
          filled ← split_lengths dim lengths
          save_split m op.name x axis filled
      ]

  -- `size() - 1` of rank 0 is -1, as an `int64`.
  unfoldable pub translate_top_k_v2_op : Handler lib
  unfolding validate_input_count get_input_node get_static_input_vector get_flag ◌+ℤ◌ save_ng_op
  translate_top_k_v2_op g statics op m = do
    validate_input_count op 2
    x ← get_input_node g m op 0
    s ← lib.get_shape x
    k_vec ← get_static_input_vector lib dt_int64 g statics op 1
    k_value ← first k_vec
    k ← lib.construct "Constant" [] (element ElementType.i64 ∷ shape [] ∷ number k_value ∷ [])
    sorted ← require op "sorted" get_flag
    v ← lib.construct "TopK" (x ∷ k ∷ []) (
        number (pos (length s) +ℤ negsuc 0)
        ∷ word "max"
        ∷ word (if sorted then "value" else "index")
        ∷ [])
    ok (save_ng_op (save_ng_op m op.name (lib.output v 0)) op.name (lib.output v 1))
