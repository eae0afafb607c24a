-- ===== src/Encapsulator/Protocol.antt =====
-- The order of the calls of an Encapsulator that encapsulate_clusters.h asks for, and that its two
-- flags enforce.
use ngraph.Prelude.{
  String, ◌≡◌, refl, ap, subst, true, false, Bool, Option, none, some, List, [], ◌∷◌, arith,
}
use ngraph.Prelude.Int.{ℤ}
use ngraph.Prelude.Status.{Status, ok, err, internal, >>=-eq-ok, ◌>>=◌}
use ngraph.Graph.{DataType, Node, Graph}
use ngraph.ClusterManager.{ClusterManager}
use ngraph.Encapsulator.{Encapsulator, new_encapsulator}
use ngraph.Encapsulator.Flow.{new_flow}
use ngraph.Encapsulator.Analysis.{analysis_pass, get_new_cluster_ids}
use ngraph.Encapsulator.Rewrite.{
  GraphEdits, in_key_order, install, create_encapsulates, remap_edges, finish_rewrite, rewrite_pass,
}
use ngraph.Encapsulator.Analysed.{analysis_pass-passes, analysis_pass-flags}
use ngraph.Encapsulator.Placed.{visit_edges-Step}
use ngraph.Encapsulator.Steps.{ok_inj}
use ngraph.Encapsulator.Created.{create_encapsulates-keeps}
use ngraph.Encapsulator.Edited.{remap_edges-keeps, rewrite_pass-ok}

-- how far an encapsulator is, and what may be called on it
pub data Phase : Type 0 where
  fresh analysed rewritten : Phase

pub data Call : Type 0 where
  analysis ids : Call
  rewrite : ℤ → List (String × String) → Call

abbrev pub next : Phase → Call → Option Phase
next fresh analysis = some analysed
next analysed (rewrite _ _) = some rewritten
next analysed ids = some analysed
next rewritten ids = some rewritten
next _ _ = none

abbrev pub follow : List Call → Phase → Option Phase
follow [] p = some p
follow (c ∷ cs) p = elim (next p c) [ none ↦ none | some q ↦ follow cs q ]

abbrev pub phase : Encapsulator → Phase
phase e = elim e.analysis_done [
  | false ↦ fresh
  | true ↦ elim e.rewrite_done [ false ↦ analysed | true ↦ rewritten ]
]

-- `rewrite_done` is set only after `analysis_done`
abbrev pub IsOrdered : Encapsulator → Type 0
IsOrdered e = e.analysis_done ≡ false → e.rewrite_done ≡ false

module _ (parse : String → String × ℤ) (requested : Node → List String)
    (input_type : Node → ℤ → DataType) (logging : Bool) (edits : GraphEdits) where
  unfoldable pub call : Call → Encapsulator → Status Encapsulator
  unfolding analysis_pass rewrite_pass get_new_cluster_ids
  call analysis e = analysis_pass parse requested input_type logging e
  call (rewrite graph_id config) e = rewrite_pass edits graph_id config e
  call ids e = get_new_cluster_ids e >>= λ i. ok e

  unfoldable pub run : List Call → Encapsulator → Status Encapsulator
  unfolding call
  run [] e = ok e
  run (c ∷ cs) e = call c e >>= run cs

  -- both flags are as they were
  abbrev Flags : Encapsulator → Encapsulator → Type 0
  Flags e e' = (e'.analysis_done ≡ e.analysis_done) × (e'.rewrite_done ≡ e.rewrite_done)

  passes-Flags :
      (graph_id : ℤ) (config : List (String × String)) (e e₁ e₂ : Encapsulator)
      → create_encapsulates edits graph_id config (in_key_order e.device_name_map) e ≡ ok e₁
      → remap_edges edits e₁.graph.edges e₁ ≡ ok e₂
      → Flags e e₂
  unfolding install
  passes-Flags graph_id config e e₁ e₂ h k =
      remap_edges-keeps edits (Flags e) (λ z g edit p. p) e₁.graph.edges e₁ e₂ k
        (create_encapsulates-keeps edits graph_id config (Flags e)
          (λ c d a b made p. subst (Flags e) made.installed p) (in_key_order e.device_name_map) e e₁
          h (refl, refl))

  -- An encapsulator that is called in an order that the protocol does not allow returns an internal
  -- error.
  pub call-refused :
      (c : Call) (e : Encapsulator)
      → IsOrdered e
      → next (phase e) c ≡ none
      → call c e ≡ err internal
  unfolding call analysis_pass rewrite_pass get_new_cluster_ids
  call-refused analysis e o h = ground arith
  call-refused (rewrite i m) e o h = ground arith
  call-refused ids e o h = ground arith

  call-rewrites :
      (graph_id : ℤ) (config : List (String × String)) (e e' : Encapsulator)
      → rewrite_pass edits graph_id config e ≡ ok e'
      → (next (phase e) (rewrite graph_id config) ≡ some (phase e')) × IsOrdered e'
  unfolding finish_rewrite
  call-rewrites graph_id config e e' h =
      let (ready, first, e₁, e₂, p, q, same) = rewrite_pass-ok edits graph_id config e e' h in
      let flags = passes-Flags graph_id config e e₁ e₂ p q in
      subst (λ z. (next (phase e) (rewrite graph_id config) ≡ some (phase z)) × IsOrdered z) same
        (ground (arith, ready, first, flags), λ k. absurd (ground (arith, ready, flags)))

  call-analyses :
      (e e' : Encapsulator)
      → IsOrdered e
      → analysis_pass parse requested input_type logging e ≡ ok e'
      → (next (phase e) analysis ≡ some (phase e')) × IsOrdered e'
  unfolding new_flow
  call-analyses e e' o h =
      let (devices, f, m, p, q, same) =
        analysis_pass-passes parse requested input_type logging e e' h in
      let flags = analysis_pass-flags parse requested input_type logging e e' h in
      let kept =
        (visit_edges-Step input_type logging e.graph e.graph.edges
          (new_flow (record e { device_name_map = devices })) f q).0.grows.rewrite_done in
      subst (λ z. (next (phase e) analysis ≡ some (phase z)) × IsOrdered z) same
        (ground (arith, flags, kept), λ k. cc)

  call-ok :
      (c : Call) (e e' : Encapsulator)
      → IsOrdered e
      → call c e ≡ ok e'
      → (next (phase e) c ≡ some (phase e')) × IsOrdered e'
  unfolding call get_new_cluster_ids
  call-ok analysis e e' o h = call-analyses e e' o h
  call-ok (rewrite i m) e e' o h = call-rewrites i m e e' h
  call-ok ids e e' o h =
      let same : e ≡ e' = ground arith in
      subst (λ z. (next (phase e) ids ≡ some (phase z)) × IsOrdered z) same (ground arith, o)

  run-follows :
      (cs : List Call) (e e' : Encapsulator)
      → IsOrdered e
      → run cs e ≡ ok e'
      → follow cs (phase e) ≡ some (phase e')
  unfolding run
  run-follows [] e e' o h = ap (λ z. some (phase z)) (ok_inj h)
  run-follows (c ∷ cs) e e' o h =
      let (e₁, p, rest) = >>=-eq-ok (call c e) (run cs) h in
      let (one, o₁) = call-ok c e e₁ o p in
      let more = run-follows cs e₁ e' o₁ rest in ground (arith, one, more)

  -- The calls of a new encapsulator that all succeed follow the protocol: one analysis, then at most
  -- one rewriting, with questions for the new ids only after the analysis. The phase that the protocol
  -- ends in is the one that the flags show.
  pub run-follow :
      (cs : List Call) (g : Graph) (m : ClusterManager) (e : Encapsulator)
      → run cs (new_encapsulator g m) ≡ ok e
      → follow cs fresh ≡ some (phase e)
  unfolding new_encapsulator
  run-follow cs g m e h = run-follows cs (new_encapsulator g m) e (λ p. refl) h
