-- ===== src/Tests/Runtime.antt =====
-- Runs of the cache of executables and of the changes of layout.
use ngraph.Prelude.{
  ℕ, ◌≤◌, ◌<◌, String, ◌≡◌, refl, true, false, none, some, List, [], ◌∷◌, ◌==◌, string_eq,
  if◌then◌else◌, length, lookup, contains, arith, Bool-cases, inl, inr, sym, ap,
}
use ngraph.Prelude.Status.{Status, ok, err, unimplemented}
use mathlib.Core.Option
use ngraph.Conversions.{nhwc_to_nchw, nchw_to_nhwc, nhwc_to_hw}
use ngraph.Conversions.Layouts.{nchw_to_nhwc-nhwc_to_nchw, nhwc_to_hw-nhwc_to_nchw}
use ngraph.Encapsulate.Cache.{Cache, set_depth, build, compiled, get_executable}
use ngraph.Encapsulate.Room.{IsCache}
use ngraph.Encapsulate.Served.{
  IsServed, Answers, get_executable-IsCache, get_executable-bound, get_executable-build,
}

-- a request is its signature, and is built into itself unless it is refused
abbrev same : String → String
same r = r

abbrev translated : String → Status String
translated r = if r == "bad" then err unimplemented else ok r

abbrev full : Cache String
full = record {
  m_function_cache_depth_in_items = 1;
  m_lru = "a" ∷ [];
  m_ng_exec_map = ("a", "a") ∷ [];
}

full-IsCache : IsCache full
unfolding contains lookup
full-IsCache = record {
  keys = λ k. ground (arith, string_eq.beq_iff k "a");
  size = refl;
  once = (refl, tt);
  one = (refl, tt);
}

full-IsServed : IsServed same translated some full
unfolding lookup build compiled
full-IsServed = record {
  served = λ k x e. elim (Bool-cases (k == "a")) [
    | inl own ↦
        let x' : "a" ≡ x = ground arith in
        ("a", sym ((string_eq.beq_iff k "a").0 own), ap (λ z. ok z) x')
    | inr other ↦ absurd (ground arith)
  ];
}

positive : 0 < (set_depth {E = String} none full).m_function_cache_depth_in_items
unfolding set_depth
positive = omega arith

not_over :
    length full.m_ng_exec_map ≤ (set_depth {E = String} none full).m_function_cache_depth_in_items
unfolding set_depth
not_over = omega arith

get_executable-IsCache_example : IsCache (get_executable same translated some none "b" full).1
get_executable-IsCache_example =
    get_executable-IsCache same translated some none "b" full full-IsCache

get_executable-bound_example :
    length (get_executable same translated some none "b" full).1.m_ng_exec_map
    ≤ (set_depth {E = String} none full).m_function_cache_depth_in_items
get_executable-bound_example =
    get_executable-bound same translated some none "b" full full-IsCache positive not_over

get_executable-build_example :
    Answers same translated some "b" full (get_executable same translated some none "b" full)
get_executable-build_example =
    get_executable-build same translated some none "b" full full-IsCache full-IsServed positive

nchw_to_nhwc-nhwc_to_nchw_example :
    (t : List ℕ) × (nhwc_to_nchw true (8 ∷ 224 ∷ 225 ∷ 3 ∷ []) ≡ some t)
    × (nchw_to_nhwc true t ≡ some (8 ∷ 224 ∷ 225 ∷ 3 ∷ []))
nchw_to_nhwc-nhwc_to_nchw_example = nchw_to_nhwc-nhwc_to_nchw true (8 ∷ 224 ∷ 225 ∷ 3 ∷ [])

nhwc_to_hw-nhwc_to_nchw_example :
    (Option.map
        (λ (t : List ℕ). nhwc_to_hw false t (0 ∷ 0 ∷ []))
        (nhwc_to_nchw true (8 ∷ 224 ∷ 225 ∷ 3 ∷ []))
      ≡ some (nhwc_to_hw {A = ℕ} true (8 ∷ 224 ∷ 225 ∷ 3 ∷ []) (0 ∷ 0 ∷ [])))
    × (Option.map
          (λ (t : List ℕ). nhwc_to_hw false t (0 ∷ 0 ∷ 0 ∷ []))
          (nhwc_to_nchw true (8 ∷ 16 ∷ 224 ∷ 225 ∷ 3 ∷ []))
        ≡ some (nhwc_to_hw {A = ℕ} true (8 ∷ 16 ∷ 224 ∷ 225 ∷ 3 ∷ []) (0 ∷ 0 ∷ 0 ∷ [])))
    × (nhwc_to_hw {A = ℕ} true (8 ∷ 224 ∷ 225 ∷ 3 ∷ []) (0 ∷ 0 ∷ []) ≡ some (224 ∷ 225 ∷ []))
    × (nhwc_to_hw {A = ℕ} true (8 ∷ 16 ∷ 224 ∷ 225 ∷ 3 ∷ []) (0 ∷ 0 ∷ 0 ∷ [])
        ≡ some (16 ∷ 224 ∷ 225 ∷ []))
nhwc_to_hw-nhwc_to_nchw_example = nhwc_to_hw-nhwc_to_nchw 8 16 224 225 3 0 0 0
