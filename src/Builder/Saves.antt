-- ===== src/Builder/Saves.antt =====
-- A handler writes only the entry of its op, and keeps what is there: rules for the ways in which
-- handlers are put together.
use ngraph.Prelude.{
  ℕ, zero, suc, String, ◌≡◌, refl, ap, ◌∙◌, subst, true, false, Bool, List, [], ◌∷◌, ◌++◌, arith,
  ◌==◌, string_eq, lookup, lookup-assign, beq_refl,
}
use ngraph.Prelude.Status.{Status, Code, ok, err}
use ngraph.Builder.Chain.{◌>>=◌, chain-ok}
use ngraph.Builder.Library.{Library}
use ngraph.Builder.Inputs.{OpMap, entry, save_ng_op}
use ngraph.Builder.Parts.{save_outputs}
use ngraph.Encapsulator.Steps.{ok_inj}

-- the op map `m'` is `m` with more values for `name`
pub record Adds {V : Type 0} (name : String) (m m' : OpMap V) : Type 0 where
  pub others : (k : String) → (k == name) ≡ false → lookup k m' ≡ lookup k m
  pub extends : (vs : List V) × (entry m' name ≡ entry m name ++ vs)

-- a call that adds values for `name`, if it succeeds
pub record Saves {V : Type 0} (name : String) (m : OpMap V) (r : Status (OpMap V)) : Type 0 where
  pub adds : (m' : OpMap V) → r ≡ ok m' → Adds name m m'

pub append_nil : {V : Type 0} (xs : List V) → xs ≡ xs ++ []
append_nil [] = refl
append_nil (x ∷ xs) = ap (λ z. x ∷ z) (append_nil xs)

pub append_assoc : {V : Type 0} (xs ys zs : List V) → (xs ++ ys) ++ zs ≡ xs ++ (ys ++ zs)
append_assoc [] ys zs = refl
append_assoc (x ∷ xs) ys zs = ap (λ z. x ∷ z) (append_assoc xs ys zs)

module _ {V : Type 0} {name : String} where
  Adds-refl : (m : OpMap V) → Adds name m m
  Adds-refl m = record { others = λ k h. refl; extends = ([], append_nil (entry m name)) }

  Adds-trans : {a b c : OpMap V} → Adds name a b → Adds name b c → Adds name a c
  Adds-trans {a = a} p q =
      let (vs, e) = p.extends in
      let (ws, f) = q.extends in
      record {
        others = λ k h. q.others k h ∙ p.others k h;
        extends = (vs ++ ws, f ∙ ap (λ z. z ++ ws) e ∙ append_assoc (entry a name) vs ws);
      }

  save_ng_op-Adds : (m : OpMap V) (v : V) → Adds name m (save_ng_op m name v)
  unfolding save_ng_op
  save_ng_op-Adds m v =
      let put = λ (k : String). lookup-assign name k (entry m name ++ v ∷ []) m in
      record {
        others = λ k h. ground (arith, put k);
        extends = (v ∷ [], ground (arith, put name, beq_refl name));
      }

  pub Saves-value : {m : OpMap V} (v : V) → Saves name m (ok (save_ng_op m name v))
  Saves-value {m = m} v = record {
    adds = λ m' h. subst (Adds name m) (ok_inj h) (save_ng_op-Adds m v);
  }

  pub Saves-two :
      {m : OpMap V} (v w : V) → Saves name m (ok (save_ng_op (save_ng_op m name v) name w))
  Saves-two {m = m} v w = record {
    adds = λ m' h.
        subst (Adds name m) (ok_inj h)
          (Adds-trans (save_ng_op-Adds m v) (save_ng_op-Adds (save_ng_op m name v) w));
  }

  -- a call that adds nothing, and one that first adds a value
  pub Saves-refl : (m : OpMap V) → Saves name m (ok m)
  Saves-refl m = record { adds = λ m' h. subst (Adds name m) (ok_inj h) (Adds-refl m) }

  pub Saves-after :
      {m : OpMap V} (v : V) {r : Status (OpMap V)}
      → Saves name (save_ng_op m name v) r
      → Saves name m r
  Saves-after {m = m} v p = record { adds = λ m' h. Adds-trans (save_ng_op-Adds m v) (p.adds m' h) }

  pub Saves-err : {m : OpMap V} (c : Code) → Saves name m (err c)
  Saves-err c = record { adds = λ m' h. absurd (ground arith) }

  pub Saves-bind {ℓ} :
      {A : Type ℓ} {m : OpMap V} (r : Status A) (f : A → Status (OpMap V))
      → ((x : A) → Saves name m (f x))
      → Saves name m (r >>= f)
  Saves-bind r f each = record {
    adds = λ m' h. let (x, _, k) = chain-ok r f h in (each x).adds m' k;
  }

  pub Saves-if :
      {m : OpMap V} (b : Bool) {t f : Status (OpMap V)}
      → Saves name m t
      → Saves name m f
      → Saves name m (elim b as (λ x. Status (OpMap V)) [ true ↦ t | false ↦ f ])
  Saves-if true p q = p
  Saves-if false p q = q

  pub Saves-uncons {ℓ} :
      {A : Type ℓ} {m : OpMap V} (xs : List A) {t : Status (OpMap V)}
      {f : A → List A → Status (OpMap V)}
      → Saves name m t
      → ((x : A) (rest : List A) → Saves name m (f x rest))
      → Saves name m (elim xs as (λ x. Status (OpMap V)) [ [] ↦ t | x ∷ rest ↦ f x rest ])
  Saves-uncons [] p q = p
  Saves-uncons (x ∷ rest) p q = q x rest

module _ (lib : Library) where
  save_outputs-Adds :
      (name : String) (m : OpMap lib.Value) (v : lib.Value) (i k : ℕ)
      → Adds name m (save_outputs lib m name v i k)
  unfolding save_outputs
  save_outputs-Adds name m v i zero = Adds-refl m
  save_outputs-Adds name m v i (suc k) =
      Adds-trans (save_ng_op-Adds m (lib.output v i))
        (save_outputs-Adds name (save_ng_op m name (lib.output v i)) v (suc i) k)

  pub Saves-outputs :
      (name : String) (m : OpMap lib.Value) (v : lib.Value) (i k : ℕ)
      → Saves name m (ok (save_outputs lib m name v i k))
  Saves-outputs name m v i k = record {
    adds = λ m' h. subst (Adds name m) (ok_inj h) (save_outputs-Adds name m v i k);
  }
