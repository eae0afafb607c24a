-- ===== src/Encapsulate/Cache.antt =====
-- The cache of executables: GetExecutable of ngraph_bridge/kernels/ngraph_encapsulate_op.cc. The
-- signature of the inputs, the translation to an nGraph function and its compilation are parameters;
-- nothing is assumed of them. A call whose signature cannot be computed returns before all this, with
-- the cache unchanged.
use ngraph.Prelude.{
  ℕ, String, Option, none, some, List, [], ◌∷◌, ◌==◌, string_eq, if◌then◌else◌, leb, length, lookup,
  assign, remove, erase,
}
use ngraph.Prelude.Status.{Status, ok, err, internal, fatal, ◌>>=◌}

-- The limit is the value that the comparison with a size sees.
pub record Cache (E : Type 0) : Type 0 where
  pub m_function_cache_depth_in_items : ℕ
  pub m_lru : List String
  pub m_ng_exec_map : List (String × E)

abbrev pub back : List String → Option String
back [] = none
back (k ∷ []) = some k
back (k ∷ j ∷ ks) = back (j ∷ ks)

abbrev pub pop_back : List String → List String
pop_back [] = []
pop_back (k ∷ []) = []
pop_back (k ∷ j ∷ ks) = k ∷ pop_back (j ∷ ks)

module _ {E : Type 0} where
  -- NGRAPH_TF_FUNCTION_CACHE_ITEM_DEPTH, if it is set
  unfoldable pub set_depth : Option ℕ → Cache E → Cache E
  set_depth none c = c
  set_depth (some depth) c = record c { m_function_cache_depth_in_items = depth }

  -- `back` of an empty list is undefined.
  unfoldable pub make_room : Cache E → Status (Cache E)
  unfolding remove
  make_room c =
      if leb c.m_function_cache_depth_in_items (length c.m_ng_exec_map)
      then elim (back c.m_lru) [
        | none ↦ err fatal
        | some key ↦
            ok (record c { m_ng_exec_map = remove key c.m_ng_exec_map; m_lru = pop_back c.m_lru })
      ]
      else ok c

  -- `front` of an empty list is undefined.
  unfoldable pub touch : String → Cache E → Status (Cache E)
  unfolding erase
  touch signature c = elim c.m_lru [
    | [] ↦ err fatal
    | front ∷ rest ↦
        ok (
          if signature == front
          then c
          else record c { m_lru = signature ∷ erase signature c.m_lru })
  ]

  unfoldable pub store : String → E → Cache E → Cache E
  unfolding assign
  store signature ng_exec c = record c {
    m_ng_exec_map = assign signature ng_exec c.m_ng_exec_map;
    m_lru = signature ∷ c.m_lru;
  }

module _ {R F E : Type 0} (signature_of : R → String) (translate : R → Status F)
    (compile : F → Option E) where
  -- an exception of the compiler is an error
  unfoldable pub compiled : F → Status E
  compiled f = elim (compile f) [ some ng_exec ↦ ok ng_exec | none ↦ err internal ]

  -- the executable for some inputs, without the cache
  unfoldable pub build : R → Status E
  unfolding compiled
  build r = do f ← translate r; compiled f

  -- a miss: the cache is changed also by a call that fails to compile
  unfoldable pub miss : Option ℕ → R → Cache E → Status E × Cache E
  unfolding set_depth make_room compiled store
  miss env r c = elim (translate r) as (λ x. Status E × Cache E) [
    | err e ↦ (err e, c)
    | ok f ↦ elim (make_room (set_depth env c)) as (λ x. Status E × Cache E) [
      | err e ↦ (err e, set_depth env c)
      | ok c' ↦ elim (compiled f) as (λ x. Status E × Cache E) [
        | err e ↦ (err e, c')
        | ok ng_exec ↦ (ok ng_exec, store (signature_of r) ng_exec c')
      ]
    ]
  ]

  unfoldable pub get_executable : Option ℕ → R → Cache E → Status E × Cache E
  unfolding miss touch lookup
  get_executable env r c =
      elim (lookup (signature_of r) c.m_ng_exec_map) as (λ x. Status E × Cache E) [
        | none ↦ miss env r c
        | some ng_exec ↦ elim (touch (signature_of r) c) as (λ x. Status E × Cache E) [
          | err e ↦ (err e, c)
          | ok c' ↦ (ok ng_exec, c')
        ]
      ]
