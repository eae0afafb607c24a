-- ===== src/Mark/Marked.antt =====
-- Which nodes the marking pass marks, and what it writes on them.
use ngraph.Prelude.{
  ℕ, String, ◌≡◌, refl, sym, ap, ◌∙◌, subst, Bool, true, false, ◌||◌, Option, none, some, List, [],
  ◌∷◌, map, nat_eq, string_eq, nat_beq_iff, if◌then◌else◌, contains, lookup, lookup-assign, arith,
  Bool-cases, inl, inr,
}
use ngraph.Prelude.Int.{ℤ}
use ngraph.Prelude.Status.{ok, ◌>>=◌, >>=-eq-ok}
use ngraph.Graph.{
  Node, Graph, ids, is_op, flag, ints, add_attr, get_flag, get_ints, node_at, update_node,
}
use ngraph.Mark.Access.{node_is_marked_for_clustering, get_static_inputs}
use ngraph.Mark.Confirm.{Confirmation}
use ngraph.Mark.Statics.{get_attribute_setters, set_static_inputs, adjust}
use ngraph.Mark.Pass.{
  Statics, refresh, accepts, select, set_attributes, mark_node, mark_nodes, mark_for_clustering,
}
use ngraph.Assign.Invariant.{Known}
use ngraph.Assign.Tagged.{node_at-update, ids-update}

abbrev mark_name : String
mark_name = "_ngraph_marked_for_clustering"

abbrev inputs_name : String
inputs_name = "_ngraph_static_inputs"

-- the static inputs that a setter leaves
abbrev expected : Option (List ℤ) → Node → List ℤ
expected (some indices) n = map (adjust n.num_inputs) indices
expected none n = get_static_inputs n

-- the static inputs of a node that is marked
abbrev pub statics_once_marked : Node → List ℤ
statics_once_marked n = expected (lookup n.type_string get_attribute_setters) n

module _ (o : Option (List ℤ)) (n : Node) where
  set_attributes-id : (set_attributes o n).id ≡ n.id
  unfolding set_attributes add_attr set_static_inputs
  set_attributes-id = ground arith

  set_attributes-type : (set_attributes o n).type_string ≡ n.type_string
  unfolding set_attributes add_attr set_static_inputs
  set_attributes-type = ground arith

  set_attributes-inputs : (set_attributes o n).num_inputs ≡ n.num_inputs
  unfolding set_attributes add_attr set_static_inputs
  set_attributes-inputs = ground arith

flag_added : (n : Node) → node_is_marked_for_clustering (add_attr n mark_name (flag true)) ≡ true
unfolding add_attr node_is_marked_for_clustering get_flag
flag_added n = ground (arith, lookup-assign mark_name mark_name (flag true) n.attrs)

flag_kept :
    (n : Node) (l : List ℤ)
    → node_is_marked_for_clustering (add_attr n inputs_name (ints l))
      ≡ node_is_marked_for_clustering n
unfolding add_attr node_is_marked_for_clustering get_flag
flag_kept n l = ground (arith, lookup-assign inputs_name mark_name (ints l) n.attrs)

inputs_added : (n : Node) (l : List ℤ) → get_static_inputs (add_attr n inputs_name (ints l)) ≡ l
unfolding add_attr get_static_inputs get_ints
inputs_added n l = ground (arith, lookup-assign inputs_name inputs_name (ints l) n.attrs)

inputs_kept :
    (n : Node) → get_static_inputs (add_attr n mark_name (flag true)) ≡ get_static_inputs n
unfolding add_attr get_static_inputs get_ints
inputs_kept n = ground (arith, lookup-assign mark_name inputs_name (flag true) n.attrs)

set_attributes-marked :
    (o : Option (List ℤ)) (n : Node)
    → node_is_marked_for_clustering (set_attributes o n) ≡ node_is_marked_for_clustering n
unfolding set_attributes set_static_inputs
set_attributes-marked (some l) n = flag_kept n (map (adjust n.num_inputs) l)
set_attributes-marked none n = refl

set_attributes-statics :
    (o : Option (List ℤ)) (n : Node)
    → get_static_inputs (set_attributes o (add_attr n mark_name (flag true))) ≡ expected o n
unfolding set_attributes set_static_inputs add_attr
set_attributes-statics (some l) n =
    unfold add_attr in inputs_added (add_attr n mark_name (flag true)) (map (adjust n.num_inputs) l)
set_attributes-statics none n = inputs_kept n

mark_node-id : (n : Node) → (mark_node n).id ≡ n.id
unfolding mark_node add_attr
mark_node-id n =
    set_attributes-id (lookup n.type_string get_attribute_setters)
      (add_attr n mark_name (flag true))

mark_node-type : (n : Node) → (mark_node n).type_string ≡ n.type_string
unfolding mark_node add_attr
mark_node-type n =
    set_attributes-type (lookup n.type_string get_attribute_setters)
      (add_attr n mark_name (flag true))

mark_node-inputs : (n : Node) → (mark_node n).num_inputs ≡ n.num_inputs
unfolding mark_node add_attr
mark_node-inputs n =
    set_attributes-inputs (lookup n.type_string get_attribute_setters)
      (add_attr n mark_name (flag true))

mark_node-marked : (n : Node) → node_is_marked_for_clustering (mark_node n) ≡ true
unfolding mark_node
mark_node-marked n =
    set_attributes-marked (lookup n.type_string get_attribute_setters)
      (add_attr n mark_name (flag true))
    ∙ flag_added n

mark_node-statics : (n : Node) → get_static_inputs (mark_node n) ≡ statics_once_marked n
unfolding mark_node
mark_node-statics n = set_attributes-statics (lookup n.type_string get_attribute_setters) n

expected-eq :
    (o : Option (List ℤ)) (n m : Node)
    → m.num_inputs ≡ n.num_inputs
    → get_static_inputs m ≡ expected o n
    → expected o m ≡ expected o n
expected-eq (some l) n m h k = ap (λ i. map (adjust i) l) h
expected-eq none n m h k = k

-- marking twice is marking once
statics-again : (n : Node) → statics_once_marked (mark_node n) ≡ statics_once_marked n
statics-again n =
    ap (λ t. expected (lookup t get_attribute_setters) (mark_node n)) (mark_node-type n)
    ∙ expected-eq (lookup n.type_string get_attribute_setters) n (mark_node n) (mark_node-inputs n)
        (mark_node-statics n)

-- what the last loop does to the nodes that it is given
pub record Marks (vs : List ℕ) (g h : Graph) : Type 0 where
  pub nodes : ids h ≡ ids g
  pub marks :
      (v : ℕ)
      → Known g v
      → node_is_marked_for_clustering (node_at h v)
        ≡ (contains vs v || node_is_marked_for_clustering (node_at g v))
  pub statics :
      (v : ℕ)
      → Known g v
      → get_static_inputs (node_at h v) ≡ (
          if contains vs v
          then statics_once_marked (node_at g v)
          else get_static_inputs (node_at g v))

mark_nodes-Marks : (vs : List ℕ) (g : Graph) → Marks vs g (mark_nodes vs g)
unfolding mark_nodes contains
mark_nodes-Marks [] g = record { nodes = refl; marks = λ v k. refl; statics = λ v k. refl }
mark_nodes-Marks (w ∷ vs) g =
    let g' = update_node g w mark_node in
    let rest = mark_nodes-Marks vs g' in
    let same = ids-update w mark_node mark_node-id g in
    let known = λ (v : ℕ) (k : Known g v). subst (λ l. contains l v ≡ true) (sym same) k in
    let there = node_at-update w mark_node mark_node-id g in
    record {
      nodes = rest.nodes ∙ same;
      marks = λ v k. ground (
        arith,
        rest.marks v (known v k),
        there v k,
        mark_node-marked (node_at g v),
        nat_beq_iff v w,
      );
      statics = λ v k. ground (
        arith,
        rest.statics v (known v k),
        there v k,
        mark_node-statics (node_at g v),
        statics-again (node_at g v),
        nat_beq_iff v w,
      );
    }

module _ (is_supported : String → Bool) (skip : List String) (m : List (String × Confirmation))
    (g : Graph) where
  select-only :
      (vs ms : List ℕ)
      → select is_supported skip m g vs ≡ ok ms
      → (v : ℕ) → contains ms v ≡ true
      → (is_op v ≡ true) × (accepts is_supported skip m (node_at g v) ≡ ok true)
  unfolding select contains
  select-only [] ms h v k = ground (arith)
  select-only (w ∷ vs) ms h v k = elim (Bool-cases (is_op w)) [
    | inr skipped ↦ select-only vs ms (ground arith) v k
    | inl op ↦
        let (b, first, h1) =
          >>=-eq-ok (accepts is_supported skip m (node_at g w))
            (λ b. select is_supported skip m g vs >>= λ rest. ok (if b then w ∷ rest else rest))
            {b = ms} (ground arith) in
        let (rest, second, last) = >>=-eq-ok (select is_supported skip m g vs) _ h1 in
        ground (arith, select-only vs rest second v, nat_beq_iff v w)
  ]

  select-verdict :
      (vs ms : List ℕ)
      → select is_supported skip m g vs ≡ ok ms
      → (v : ℕ) → contains vs v ≡ true
      → is_op v ≡ true
      → accepts is_supported skip m (node_at g v) ≡ ok (contains ms v)
  unfolding select contains
  select-verdict [] ms h v k o = cc
  select-verdict (w ∷ vs) ms h v k o = elim (Bool-cases (is_op w)) [
    | inr skipped ↦ select-verdict vs ms (ground arith) v (ground (arith, nat_beq_iff v w)) o
    | inl op ↦
        let (b, first, h1) =
          >>=-eq-ok (accepts is_supported skip m (node_at g w))
            (λ b. select is_supported skip m g vs >>= λ rest. ok (if b then w ∷ rest else rest))
            {b = ms} (ground arith) in
        let (rest, second, last) = >>=-eq-ok (select is_supported skip m g vs) _ h1 in
        ground
          (arith, select-only vs rest second v, select-verdict vs rest second v, nat_beq_iff v w)
  ]

-- If the marking pass succeeds on a graph, then for every op of the graph its checks (the output
-- nodes, the confirmation function, the type constraints, the backend) gave an answer. The op is
-- marked exactly if that answer is true or it was marked before, and the static inputs of an op that
-- is accepted are those of the setter of its type, with negative indices counted from the right.
-- A node that is not an op keeps its mark and its static inputs, and the nodes are the same.
pub mark_for_clustering-marks :
    (is_supported : String → Bool) (skip : List String) (current : List String) (g h : Graph)
    (s : Statics)
    → (mark_for_clustering is_supported skip current g s).0 ≡ ok h
    → (ids h ≡ ids g)
      × ((v : ℕ)
          → Known g v
          → (answer : Bool) × (is_op v ≡ true
              → accepts is_supported skip
                  (refresh current s).1.confirmation_function_map
                  (node_at g v)
                ≡ ok answer)
            × (is_op v ≡ false → answer ≡ false)
            × (node_is_marked_for_clustering (node_at h v)
                ≡ (answer || node_is_marked_for_clustering (node_at g v)))
            × (get_static_inputs (node_at h v) ≡ (
                if answer
                then statics_once_marked (node_at g v)
                else get_static_inputs (node_at g v))))
unfolding mark_for_clustering
mark_for_clustering-marks is_supported skip current g h s e =
    let m = (refresh current s).1.confirmation_function_map in
    let (_, _, h1) = >>=-eq-ok (refresh current s).0 _ e in
    let (ms, chosen, last) = >>=-eq-ok (select is_supported skip m g (ids g)) _ h1 in
    let written = subst (Marks ms g) (ok-inj (mark_nodes ms g) h last) (mark_nodes-Marks ms g) in
    (
      written.nodes,
      λ v k. (
        contains ms v,
        λ o. select-verdict is_supported skip m g (ids g) ms chosen v k o,
        λ o. ground (arith, select-only is_supported skip m g (ids g) ms chosen v),
        written.marks v k,
        written.statics v k,
      ),
    )
  where
    ok-inj : (a b : Graph) → ok a ≡ ok b → a ≡ b
    ok-inj a b p = cc
