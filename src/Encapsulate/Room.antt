-- ===== src/Encapsulate/Room.antt =====
-- The list of recently used signatures and the map of executables hold the same keys, and the cache
-- does not outgrow its limit.
use ngraph.Prelude.{
  ℕ, ◌≤◌, ◌<◌, String, ◌≡◌, ◌≢◌, refl, sym, ◌∙◌, subst, true, false, Option, none, some, List, [],
  ◌∷◌, ◌==◌, string_eq, leb, length, lookup, remove, erase, contains, arith, Bool-cases,
  Option-cases, List-cases, lookup-remove, inl, inr,
}
use ngraph.Prelude.Status.{ok}
use ngraph.Encapsulate.Cache.{Cache, back, pop_back, set_depth, make_room, touch, store}
use ngraph.Encapsulate.Keys.{
  OnceEach, holds, OneEntry, contains-erase, erase-OnceEach, length-erase, pop_back-length,
  contains-back, contains-pop_back, pop_back-OnceEach, holds-assign, holds-remove, length-assign,
  length-remove, assign-OneEntry, remove-OneEntry,
}

pub record IsCache {E : Type 0} (c : Cache E) : Type 0 where
  pub keys : (k : String) → contains c.m_lru k ≡ holds c.m_ng_exec_map k
  pub size : length c.m_lru ≡ length c.m_ng_exec_map
  pub once : OnceEach c.m_lru
  pub one : OneEntry c.m_ng_exec_map

back-none : (xs : List String) → back xs ≡ none → length xs ≡ 0
back-none [] h = refl
back-none (x ∷ []) h = cc
back-none (x ∷ y ∷ ys) h = absurd (unsome (y ∷ ys) tt h)
  where
    unsome :
        (zs : List String)
        → (elim zs as (λ x. Type 0) [ [] ↦ ¬ (Unit {0}) | w ∷ ws ↦ Unit {0} ])
        → back zs ≢ none
    unsome [] p q = p tt
    unsome (z ∷ []) p q = cc
    unsome (z ∷ w ∷ ws) p q = unsome (w ∷ ws) tt q

module _ {E : Type 0} where
  pub set_depth-IsCache : (env : Option ℕ) (c : Cache E) → IsCache c → IsCache (set_depth env c)
  unfolding set_depth
  set_depth-IsCache none c i = i
  set_depth-IsCache (some d) c i = record {
    keys = i.keys;
    size = i.size;
    once = i.once;
    one = i.one;
  }

  -- what making room leaves
  pub record Roomy (c d : Cache E) : Type 0 where
    pub sound : IsCache d
    pub depth : d.m_function_cache_depth_in_items ≡ c.m_function_cache_depth_in_items
    pub fits :
        length c.m_ng_exec_map ≤ c.m_function_cache_depth_in_items
        → 0 < c.m_function_cache_depth_in_items
        → length d.m_ng_exec_map < c.m_function_cache_depth_in_items
    pub shrinks : length d.m_ng_exec_map ≤ length c.m_ng_exec_map
    pub keeps :
        (k : String) (x : E) → lookup k d.m_ng_exec_map ≡ some x → lookup k c.m_ng_exec_map ≡ some x

  evicted : String → Cache E → Cache E
  evicted k c = record c { m_ng_exec_map = remove k c.m_ng_exec_map; m_lru = pop_back c.m_lru }

  evicted-Roomy :
      (c : Cache E) (k : String) → IsCache c → back c.m_lru ≡ some k → Roomy c (evicted k c)
  unfolding evicted
  evicted-Roomy c k i last =
      let held : holds c.m_ng_exec_map k ≡ true = sym (i.keys k) ∙ contains-back k c.m_lru last in
      let less = length-remove k c.m_ng_exec_map i.one held in
      record {
        sound = record {
          keys = λ j. ground (
            arith,
            contains-pop_back k j c.m_lru i.once last,
            holds-remove k j c.m_ng_exec_map,
            i.keys j,
          );
          size = omega (arith, less, pop_back-length k c.m_lru last, i.size);
          once = pop_back-OnceEach c.m_lru i.once;
          one = remove-OneEntry k c.m_ng_exec_map i.one;
        };
        depth = refl;
        fits = λ h p. omega (arith, less);
        shrinks = omega (arith, less);
        keeps = λ j x e. ground (arith, lookup-remove k j c.m_ng_exec_map);
      }

  pub make_room-Roomy : (c d : Cache E) → IsCache c → make_room c ≡ ok d → Roomy c d
  unfolding make_room evicted
  make_room-Roomy c d i h =
      elim (Bool-cases (leb c.m_function_cache_depth_in_items (length c.m_ng_exec_map))) [
        | inr room ↦
            let same : c ≡ d = ground arith in
            subst (Roomy c) same (record {
              sound = i;
              depth = refl;
              fits = λ a p. ground arith;
              shrinks = omega arith;
              keeps = λ k x e. e;
            })
        | inl full ↦ elim (Option-cases (back c.m_lru)) [
          | inl empty ↦ absurd (ground arith)
          | inr (k, last) ↦
              let same : evicted k c ≡ d = ground arith in
              subst (Roomy c) same (evicted-Roomy c k i last)
        ]
      ]

  -- With a positive limit there is always an executable to evict.
  pub make_room-ok :
      (c : Cache E)
      → IsCache c
      → 0 < c.m_function_cache_depth_in_items
      → (d : Cache E) × (make_room c ≡ ok d)
  unfolding make_room
  make_room-ok c i p =
      elim (Bool-cases (leb c.m_function_cache_depth_in_items (length c.m_ng_exec_map))) [
        | inr room ↦ (c, ground arith)
        | inl full ↦ elim (Option-cases (back c.m_lru)) [
          | inl empty ↦ absurd (ground (arith, i.size, back-none c.m_lru empty))
          | inr (k, last) ↦ (
            record c { m_ng_exec_map = remove k c.m_ng_exec_map; m_lru = pop_back c.m_lru },
            ground arith,
          )
        ]
      ]

  pub store-IsCache :
      (k : String) (x : E) (c : Cache E)
      → IsCache c
      → holds c.m_ng_exec_map k ≡ false
      → IsCache (store k x c)
  unfolding store contains
  store-IsCache k x c i h = record {
    keys = λ j. ground (arith, i.keys j, holds-assign k j x c.m_ng_exec_map);
    size = ground (arith, i.size, length-assign k x c.m_ng_exec_map h);
    once = (i.keys k ∙ h, i.once);
    one = assign-OneEntry k x c.m_ng_exec_map i.one;
  }

  pub record Touched (c d : Cache E) : Type 0 where
    pub sound : IsCache d
    pub map : d.m_ng_exec_map ≡ c.m_ng_exec_map

  to_front : String → Cache E → Cache E
  to_front k c = record c { m_lru = k ∷ erase k c.m_lru }

  to_front-IsCache :
      (k : String) (c : Cache E)
      → IsCache c
      → holds c.m_ng_exec_map k ≡ true
      → IsCache (to_front k c)
  unfolding to_front contains
  to_front-IsCache k c i h = record {
    keys = λ j. ground (arith, i.keys j, contains-erase k j c.m_lru, string_eq.beq_iff j k);
    size = length-erase k c.m_lru i.once (i.keys k ∙ h) ∙ i.size;
    once = (
      ground (arith, contains-erase k k c.m_lru, string_eq.beq_iff k k),
      erase-OnceEach k c.m_lru i.once,
    );
    one = i.one;
  }

  -- An executable that is found can always be moved to the front.
  pub touch-ok :
      (k : String) (c : Cache E)
      → IsCache c
      → holds c.m_ng_exec_map k ≡ true
      → (d : Cache E) × (touch k c ≡ ok d) × Touched c d
  unfolding touch to_front contains
  touch-ok k c i h = elim (List-cases c.m_lru) [
    | inl empty ↦ absurd (ground (arith, i.keys k))
    | inr (front, rest, some') ↦ elim (Bool-cases (k == front)) [
      | inl first ↦ (c, ground arith, record { sound = i; map = refl })
      | inr later ↦
          (to_front k c, ground arith, record { sound = to_front-IsCache k c i h; map = refl })
    ]
  ]
