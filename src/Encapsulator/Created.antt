-- ===== src/Encapsulator/Created.antt =====
-- Pass 3 of the rewriting: what it does for a cluster, and what it keeps.
use ngraph.Prelude.{
  ℕ, String, ◌≡◌, subst, List, [], ◌∷◌, arith, nat_eq, string_eq, pair_eq, Option-cases, inl, inr,
}
use ngraph.Prelude.Int.{ℤ, int_eq}
use ngraph.Prelude.Status.{Status, ok, >>=-eq-ok, ◌>>=◌}
use ngraph.Graph.{Graph}
use ngraph.Encapsulator.{Encapsulator}
use ngraph.Encapsulator.Rewrite.{
  GraphEdits, encap_spec, install, static_inputs_of, cluster_graph_at, create_encapsulate,
  create_encapsulates,
}
use ngraph.Encapsulator.Steps.{ok_inj}

module _ (edits : GraphEdits) (graph_id : ℤ) (config : List (String × String)) where
  -- one encapsulate node: the node that is built, and the writes
  pub record IsCreated (c : ℤ) (device : String) (e e' : Encapsulator) : Type 0 where
    pub statics : List ℤ
    pub built : ℕ × Graph
    pub finalized :
        edits.finalize (encap_spec graph_id c device config statics e) e.graph ≡ ok built
    pub installed : install c device e built ≡ e'

  pub create_encapsulate-IsCreated :
      (c : ℤ) (device : String) (e e' : Encapsulator)
      → create_encapsulate edits graph_id config c device e ≡ ok e'
      → IsCreated c device e e'
  unfolding create_encapsulate
  create_encapsulate-IsCreated c device e e' h =
      elim (Option-cases (cluster_graph_at e.manager c)) [
        | inl out ↦ absurd (ground arith)
        | inr (gdef, found) ↦
            let build : List ℤ → Status Encapsulator = λ statics.
              edits.finalize (encap_spec graph_id c device config statics e) e.graph >>= λ built.
              ok (install c device e built) in
            let (statics, _, h₁) =
              >>=-eq-ok (static_inputs_of edits gdef) build {b = e'} (ground arith) in
            let (built, p, h₂) =
              >>=-eq-ok (edits.finalize (encap_spec graph_id c device config statics e) e.graph)
                (λ built. ok (install c device e built)) h₁ in
            record { statics = statics; built = built; finalized = p; installed = ok_inj h₂ }
      ]

  -- a property of encapsulators that each new node keeps holds after the loop
  pub create_encapsulates-keeps {ℓ} :
      (P : Encapsulator → Type ℓ)
      → ((c : ℤ) (device : String) (e e' : Encapsulator) → IsCreated c device e e' → P e → P e')
      → (m : List (ℤ × String)) (e e' : Encapsulator)
      → create_encapsulates edits graph_id config m e ≡ ok e'
      → P e
      → P e'
  unfolding create_encapsulates
  create_encapsulates-keeps P step [] e e' h p = subst P (ok_inj h) p
  create_encapsulates-keeps P step ((c, d) ∷ m) e e' h p =
      let (e₁, q, rest) =
        >>=-eq-ok (create_encapsulate edits graph_id config c d e)
          (create_encapsulates edits graph_id config m) h in
      create_encapsulates-keeps P step m e₁ e' rest
        (step c d e e₁ (create_encapsulate-IsCreated c d e e₁ q) p)
