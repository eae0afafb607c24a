-- ===== src/Encapsulate/Served.antt =====
-- What GetExecutable answers: a fresh build, or what was built for the same signature.
use ngraph.Prelude.{
  ℕ, ◌≤◌, ◌<◌, String, ◌≡◌, ◌≢◌, refl, sym, ◌∙◌, subst, Option, none, some, ◌==◌, string_eq, length,
  lookup, lookup-assign, assign, ap, Bool-cases, arith, Option-cases, inl, inr,
}
use ngraph.Prelude.Status.{Status, Code, ok, err, Status-cases}
use ngraph.Encapsulate.Cache.{
  Cache, set_depth, make_room, store, compiled, build, miss, get_executable,
}
use ngraph.Encapsulate.Keys.{length-assign}
use ngraph.Encapsulate.Room.{
  IsCache, Roomy, make_room-ok, make_room-Roomy, set_depth-IsCache, store-IsCache, Touched,
  touch-ok,
}

module _ {R F E : Type 0} (signature_of : R → String) (translate : R → Status F)
    (compile : F → Option E) (env : Option ℕ) (r : R) (c : Cache E) where
  -- the ways in which a call can go
  data Run : Status E × Cache E → Type 0 where
    hit :
        (x : E) (d : Cache E)
        → lookup (signature_of r) c.m_ng_exec_map ≡ some x
        → Touched c d
        → Run (ok x, d)
    untranslated :
        (e : Code)
        → lookup (signature_of r) c.m_ng_exec_map ≡ none
        → translate r ≡ err e
        → Run (err e, c)
    stuck : (e : Code) → make_room (set_depth env c) ≡ err e → Run (err e, set_depth env c)
    uncompiled :
        (f : F) (d : Cache E) (e : Code)
        → lookup (signature_of r) c.m_ng_exec_map ≡ none
        → translate r ≡ ok f
        → Roomy (set_depth env c) d
        → compiled signature_of translate compile f ≡ err e
        → Run (err e, d)
    stored :
        (f : F) (d : Cache E) (x : E)
        → lookup (signature_of r) c.m_ng_exec_map ≡ none
        → translate r ≡ ok f
        → Roomy (set_depth env c) d
        → compiled signature_of translate compile f ≡ ok x
        → Run (ok x, store (signature_of r) x d)

  get_executable-Run : IsCache c → Run (get_executable signature_of translate compile env r c)
  unfolding get_executable miss
  get_executable-Run i = elim (Option-cases (lookup (signature_of r) c.m_ng_exec_map)) [
    | inr (x, found) ↦
        let (d, touched, t) = touch-ok (signature_of r) c i (ground arith) in
        subst Run (ground arith) (hit x d found t)
    | inl absent ↦ elim (Status-cases (translate r)) [
      | inr (e, bad) ↦ subst Run (ground arith) (untranslated e absent bad)
      | inl (f, good) ↦ elim (Status-cases (make_room (set_depth env c))) [
        | inr (e, bad) ↦ subst Run (ground arith) (stuck e bad)
        | inl (d, room) ↦
            let roomy = make_room-Roomy (set_depth env c) d (set_depth-IsCache env c i) room in
            elim (Status-cases (compiled signature_of translate compile f)) [
              | inr (e, bad) ↦ subst Run (ground arith) (uncompiled f d e absent good roomy bad)
              | inl (x, made) ↦ subst Run (ground arith) (stored f d x absent good roomy made)
            ]
      ]
    ]
  ]

  map-set_depth : (set_depth env c).m_ng_exec_map ≡ c.m_ng_exec_map
  unfolding set_depth
  map-set_depth = depth_cases env
    where
      depth_cases : (e : Option ℕ) → (set_depth e c).m_ng_exec_map ≡ c.m_ng_exec_map
      depth_cases none = refl
      depth_cases (some d) = refl

  -- a signature that the cache lacks is still lacking once there is room
  still_absent :
      (d : Cache E)
      → Roomy (set_depth env c) d
      → lookup (signature_of r) c.m_ng_exec_map ≡ none
      → lookup (signature_of r) d.m_ng_exec_map ≡ none
  still_absent d roomy absent = elim (Option-cases (lookup (signature_of r) d.m_ng_exec_map)) [
    | inl gone ↦ gone
    | inr (x, there) ↦
        let before = rw map-set_depth at (roomy.keeps (signature_of r) x there) in
        absurd (cc (absent, before))
  ]

  Run-IsCache : (res : Status E × Cache E) → IsCache c → Run res → IsCache res.1
  Run-IsCache _ i (hit x d found t) = t.sound
  Run-IsCache _ i (untranslated e absent bad) = i
  Run-IsCache _ i (stuck e bad) = set_depth-IsCache env c i
  Run-IsCache _ i (uncompiled f d e absent good roomy bad) = roomy.sound
  Run-IsCache _ i (stored f d x absent good roomy made) =
      store-IsCache (signature_of r) x d roomy.sound (ground (arith, still_absent d roomy absent))

  -- A call of GetExecutable keeps the cache well-formed, also when it fails: the list of recently
  -- used signatures names each executable of the map once and nothing else.
  pub get_executable-IsCache :
      IsCache c → IsCache (get_executable signature_of translate compile env r c).1
  get_executable-IsCache i =
      Run-IsCache (get_executable signature_of translate compile env r c) i (get_executable-Run i)

  abbrev limit : ℕ
  limit = (set_depth env c).m_function_cache_depth_in_items

  Run-bound :
      (res : Status E × Cache E)
      → 0 < limit
      → length c.m_ng_exec_map ≤ limit
      → Run res
      → length res.1.m_ng_exec_map ≤ limit
  Run-bound _ p h (hit x d found t) = rw t.map h
  Run-bound _ p h (untranslated e absent bad) = h
  Run-bound _ p h (stuck e bad) = rw map-set_depth h
  Run-bound _ p h (uncompiled f d e absent good roomy bad) =
      omega (arith, roomy.shrinks, ap length map-set_depth)
  Run-bound _ p h (stored f d x absent good roomy made) =
      let fresh =
        length-assign (signature_of r) x d.m_ng_exec_map
          (ground (arith, still_absent d roomy absent)) in
      unfold store in omega (arith, fresh, roomy.fits, ap length map-set_depth)

  -- With a positive limit, a cache that holds no more executables than the limit that the call uses
  -- holds no more of them after it.
  pub get_executable-bound :
      IsCache c
      → 0 < limit
      → length c.m_ng_exec_map ≤ limit
      → length (get_executable signature_of translate compile env r c).1.m_ng_exec_map ≤ limit
  get_executable-bound i p h =
      Run-bound (get_executable signature_of translate compile env r c) p h (get_executable-Run i)

module _ {R F E : Type 0} (signature_of : R → String) (translate : R → Status F)
    (compile : F → Option E) where
  -- each executable of the cache was built for a request with the signature that it is kept under
  pub record IsServed (c : Cache E) : Type 0 where
    pub served :
        (k : String) (x : E)
        → lookup k c.m_ng_exec_map ≡ some x
        → (q : R) × (signature_of q ≡ k) × (build signature_of translate compile q ≡ ok x)

  -- the answer for a request: its own build if its signature is not in the cache, else what the
  -- cache has, which was built for some request with the same signature
  pub record Answers (r : R) (c : Cache E) (res : Status E × Cache E) : Type 0 where
    pub fresh :
        lookup (signature_of r) c.m_ng_exec_map ≡ none
        → res.0 ≡ build signature_of translate compile r
    pub cached :
        (x : E)
        → lookup (signature_of r) c.m_ng_exec_map ≡ some x
        → (res.0 ≡ ok x)
          × (q : R) × (signature_of q ≡ signature_of r)
          × (build signature_of translate compile q ≡ ok x)
    pub served : IsServed res.1

  module _ (env : Option ℕ) (r : R) (c : Cache E) where
    kept : (d : Cache E) → Roomy (set_depth env c) d → IsServed c → IsServed d
    kept d roomy s = record {
      served = λ k x e. s.served k x (
          subst (λ m. lookup k m ≡ some x) (map-set_depth signature_of translate compile env r c)
            (roomy.keeps k x e));
    }

    added :
        (d : Cache E) (x : E)
        → build signature_of translate compile r ≡ ok x
        → IsServed d
        → (k : String) (y : E) → lookup k (assign (signature_of r) x d.m_ng_exec_map) ≡ some y
        → (q : R) × (signature_of q ≡ k) × (build signature_of translate compile q ≡ ok y)
    added d x made s k y e = elim (Bool-cases (k == signature_of r)) [
      | inl own ↦
          let y' : x ≡ y = ground (arith, lookup-assign (signature_of r) k x d.m_ng_exec_map) in
          (r, sym ((string_eq.beq_iff k (signature_of r)).0 own), made ∙ ap (λ z. ok z) y')
      | inr other ↦
          s.served k y (ground (arith, lookup-assign (signature_of r) k x d.m_ng_exec_map))
    ]

    -- a call that finds nothing in the cache
    missed :
        (res : Status E × Cache E)
        → lookup (signature_of r) c.m_ng_exec_map ≡ none
        → res.0 ≡ build signature_of translate compile r
        → IsServed res.1
        → Answers r c res
    missed res absent own s = record {
      fresh = λ h. own;
      cached = λ x h. absurd (cc (absent, h));
      served = s;
    }

    Run-Answers :
        (res : Status E × Cache E)
        → IsServed c
        → ((e : Code) → make_room (set_depth env c) ≢ err e)
        → Run signature_of translate compile env r c res
        → Answers r c res
    Run-Answers _ s n (hit x d found t) = record {
      fresh = λ h. absurd (cc (found, h));
      cached = λ y h.
          let same : x ≡ y = ground (arith, found, h) in
          let (q, sig, made) = s.served (signature_of r) y h in (ap (λ z. ok z) same, q, sig, made);
      served = record { served = λ k y e. s.served k y (rw t.map at e) };
    }
    Run-Answers _ s n (untranslated e absent bad) =
        missed (err e, c) absent (unfold build in ground arith) s
    Run-Answers _ s n (stuck e bad) = absurd (n e bad)
    Run-Answers _ s n (uncompiled f d e absent good roomy bad) =
        missed (err e, d) absent (unfold build in ground arith) (kept d roomy s)
    Run-Answers _ s n (stored f d x absent good roomy made) =
        let made' : build signature_of translate compile r ≡ ok x = unfold build in ground arith in
        missed (ok x, store (signature_of r) x d) absent (sym made')
          (record { served = λ k y e. added d x made' (kept d roomy s) k y (unfold store in e) })

    -- With a positive limit, and a well-formed cache each of whose executables was built for a request
    -- with its signature: if the signature of a request is not in the cache, GetExecutable answers
    -- exactly as the build without a cache does, errors included; if it is, it answers with the
    -- executable that is there, which was built for some request with the same signature. The cache
    -- stays such a cache.
    pub get_executable-build :
        IsCache c
        → IsServed c
        → 0 < (set_depth env c).m_function_cache_depth_in_items
        → Answers r c (get_executable signature_of translate compile env r c)
    get_executable-build i s p =
        let (d, room) = make_room-ok (set_depth env c) (set_depth-IsCache env c i) p in
        Run-Answers (get_executable signature_of translate compile env r c) s (λ e h. cc (room, h))
          (get_executable-Run signature_of translate compile env r c i)
