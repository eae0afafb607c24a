-- ===== src/Encapsulate/Keys.antt =====
-- Lists of keys without repetition, and maps with one entry for a key.
use ngraph.Prelude.{
  suc, String, ◌≡◌, refl, Bool, true, false, not, ◌&&◌, ◌||◌, none, some, List, [], ◌∷◌, ◌==◌,
  string_eq, length, lookup, assign, remove, lookup-assign, lookup-remove, erase, contains, arith,
  Bool-cases, inl, inr,
}
use ngraph.Encapsulate.Cache.{back, pop_back}

abbrev pub OnceEach : List String → Type 0
OnceEach [] = Unit
OnceEach (k ∷ ks) = (contains ks k ≡ false) × OnceEach ks

abbrev pub holds : {E : Type 0} → List (String × E) → String → Bool
holds m k = elim (lookup k m) [ none ↦ false | some x ↦ true ]

abbrev pub OneEntry : {E : Type 0} → List (String × E) → Type 0
OneEntry [] = Unit
OneEntry ((k, x) ∷ m) = (holds m k ≡ false) × OneEntry m

pub contains-erase :
    (a b : String) (xs : List String) → contains (erase a xs) b ≡ (not (b == a) && contains xs b)
unfolding contains erase
contains-erase a b [] = ground arith
contains-erase a b (x ∷ xs) = ground (
  arith,
  contains-erase a b xs,
  string_eq.beq_iff a x,
  string_eq.beq_iff b x,
  string_eq.beq_iff b a,
)

pub erase-OnceEach : (a : String) (xs : List String) → OnceEach xs → OnceEach (erase a xs)
unfolding erase
erase-OnceEach a [] o = tt
erase-OnceEach a (x ∷ xs) o = elim (Bool-cases (a == x)) [
  | inl same ↦ rw same (erase-OnceEach a xs o.1)
  | inr other ↦ rw other (ground (arith, contains-erase a x xs), erase-OnceEach a xs o.1)
]

erase-absent :
    (a : String) (xs : List String) → contains xs a ≡ false → length (erase a xs) ≡ length xs
unfolding erase contains
erase-absent a [] h = refl
erase-absent a (x ∷ xs) h = ground (arith, erase-absent a xs)

pub length-erase :
    (a : String) (xs : List String)
    → OnceEach xs
    → contains xs a ≡ true
    → suc (length (erase a xs)) ≡ length xs
unfolding erase contains
length-erase a [] o h = cc
length-erase a (x ∷ xs) o h =
    ground (arith, o.0, erase-absent a xs, length-erase a xs o.1, string_eq.beq_iff a x)

pub pop_back-length :
    (k : String) (xs : List String) → back xs ≡ some k → suc (length (pop_back xs)) ≡ length xs
pop_back-length k [] h = cc
pop_back-length k (x ∷ []) h = refl
pop_back-length k (x ∷ y ∷ ys) h = omega (arith, pop_back-length k (y ∷ ys) h)

pub contains-back : (k : String) (xs : List String) → back xs ≡ some k → contains xs k ≡ true
unfolding contains
contains-back k [] h = cc
contains-back k (x ∷ []) h = ground (arith, string_eq.beq_iff k x)
contains-back k (x ∷ y ∷ ys) h = ground (arith, contains-back k (y ∷ ys) h)

pub contains-pop_back :
    (k j : String) (xs : List String)
    → OnceEach xs
    → back xs ≡ some k
    → contains (pop_back xs) j ≡ (not (j == k) && contains xs j)
unfolding contains
contains-pop_back k j [] o h = cc
contains-pop_back k j (x ∷ []) o h = ground (arith, string_eq.beq_iff j x, string_eq.beq_iff j k)
contains-pop_back k j (x ∷ y ∷ ys) o h = ground (
  arith,
  o.0,
  contains-pop_back k j (y ∷ ys) o.1 h,
  contains-back k (y ∷ ys) h,
  string_eq.beq_iff j x,
  string_eq.beq_iff j k,
)

pub pop_back-OnceEach : (xs : List String) → OnceEach xs → OnceEach (pop_back xs)
unfolding contains
pop_back-OnceEach [] o = tt
pop_back-OnceEach (x ∷ []) o = tt
pop_back-OnceEach (x ∷ y ∷ ys) o = (contains_less x (y ∷ ys) o.0, pop_back-OnceEach (y ∷ ys) o.1)
  where
    contains_less :
        (a : String) (zs : List String) → contains zs a ≡ false → contains (pop_back zs) a ≡ false
    contains_less a [] h = refl
    contains_less a (z ∷ []) h = refl
    contains_less a (z ∷ w ∷ ws) h = ground (arith, contains_less a (w ∷ ws))

module _ {E : Type 0} where
  pub holds-assign :
      (k j : String) (x : E) (m : List (String × E))
      → holds (assign k x m) j ≡ (j == k || holds m j)
  holds-assign k j x m = ground (arith, lookup-assign k j x m)

  pub holds-remove :
      (k j : String) (m : List (String × E)) → holds (remove k m) j ≡ (not (j == k) && holds m j)
  holds-remove k j m = ground (arith, lookup-remove k j m)

  pub length-assign :
      (k : String) (x : E) (m : List (String × E))
      → holds m k ≡ false
      → length (assign k x m) ≡ suc (length m)
  unfolding assign lookup
  length-assign k x [] h = refl
  length-assign k x ((j, y) ∷ m) h = ground (arith, length-assign k x m)

  length-remove_absent :
      (k : String) (m : List (String × E)) → holds m k ≡ false → length (remove k m) ≡ length m
  unfolding remove lookup
  length-remove_absent k [] h = refl
  length-remove_absent k ((j, y) ∷ m) h = ground (arith, length-remove_absent k m)

  pub length-remove :
      (k : String) (m : List (String × E))
      → OneEntry m
      → holds m k ≡ true
      → suc (length (remove k m)) ≡ length m
  unfolding remove lookup
  length-remove k [] o h = cc
  length-remove k ((j, y) ∷ m) o h =
      ground (arith, o.0, length-remove_absent k m, length-remove k m o.1, string_eq.beq_iff k j)

  pub assign-OneEntry :
      (k : String) (x : E) (m : List (String × E)) → OneEntry m → OneEntry (assign k x m)
  unfolding assign
  assign-OneEntry k x [] o = (unfold lookup in refl, tt)
  assign-OneEntry k x ((j, y) ∷ m) o = elim (Bool-cases (k == j)) [
    | inl same ↦ rw same o
    | inr other ↦ rw other (
      ground (arith, o.0, holds-assign k j x m, string_eq.beq_iff j k, string_eq.beq_iff k j),
      assign-OneEntry k x m o.1,
    )
  ]

  pub remove-OneEntry : (k : String) (m : List (String × E)) → OneEntry m → OneEntry (remove k m)
  unfolding remove
  remove-OneEntry k [] o = tt
  remove-OneEntry k ((j, y) ∷ m) o = elim (Bool-cases (k == j)) [
    | inl same ↦ rw same (remove-OneEntry k m o.1)
    | inr other ↦ rw other (ground (arith, o.0, holds-remove k j m), remove-OneEntry k m o.1)
  ]
