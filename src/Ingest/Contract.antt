-- ===== src/Ingest/Contract.antt =====
-- core-side-patch/routers/patent_ingest_p2.py: when core validates a pushed derivation, and what a
-- rejection changes.
use mathlib.Core.Option.{some-injective}
use mathlib.Core.Logic.Iff
use p2_ai_knowledge_graph_fo.Base.{
  ℕ, ◌≡◌, refl, sym, ap, inl, inr, ◌↔◌, Bool, true, false, List, [], ◌∷◌, Option, none, some, Text,
  Memᴰ, Distinct, map, if◌then◌else◌, list_eq, nat_eq, Option-cases,
}
use p2_ai_knowledge_graph_fo.Schema.{node_obligation, node_control_type}
use p2_ai_knowledge_graph_fo.Tables.{load_active_catalog, resolve_ai_system_node_id}
use p2_ai_knowledge_graph_fo.Reference.{ReferenceDerived, node_lookup}
use p2_ai_knowledge_graph_fo.Reference.Correct.{NotTerminal, reference-agrees}
use p2_ai_knowledge_graph_fo.Ingest.Persisted.{
  IsPersisted, RowDerived, store_derivation-IsPersisted, CoreDerived-iff,
}
use p2_ai_knowledge_graph_fo.Validation.{validate_obligation_control_ids, compare_derivation}
use p2_ai_knowledge_graph_fo.Validation.Laws.{compare_derivation_iff}
use p2_ai_knowledge_graph_fo.MismatchMetrics.{flagged_mismatch}
use p2_ai_knowledge_graph_fo.Ingest.{
  DerivationRequest, Core, Answer, bad_references, unknown_ai_system_node, recorded, validated,
  node_entries, edge_entries, submitted, reference_ids, store_derivation,
  derive_obligations_reference, resolve_max_traversal_depth, compare_and_store, process_checked,
  process_one_derivation,
}

-- The payload lists exactly the obligations and controls that active rows reach in at most 6 edges.
abbrev pub Exact : Core → ℕ → DerivationRequest → Type 0
Exact core s payload =
    ((k : Text)
      → Memᴰ k payload.derived_obligations ↔ RowDerived core.session 6 s node_obligation k)
    × ((k : Text)
        → Memᴰ k payload.derived_controls ↔ RowDerived core.session 6 s node_control_type k)

-- What is stored for either verdict.
store_derivation-links :
    (payload : DerivationRequest) (org user : ℕ) (core : Core) (r : ReferenceDerived)
    (matches : Bool)
    → matches ≡ false
    → (store_derivation payload org user core r matches).0.session.links ≡ core.session.links
unfolding store_derivation
store_derivation-links payload org user core r matches h = rw h refl

abbrev verdict : Bool → Text
verdict matches = if matches then validated else flagged_mismatch

store_derivation-answer :
    (payload : DerivationRequest) (org user : ℕ) (core : Core) (r : ReferenceDerived)
    (matches : Bool)
    → (store_derivation payload org user core r matches).1
      ≡ recorded (verdict matches) core.session.next_id r
unfolding store_derivation
store_derivation-answer payload org user core r matches = refl

-- Let the ids of core's nodes be unique, let every id of the payload be in the catalog, and let the
-- system's node be found, and be no obligation or control type. Then core stores the derivation: one
-- new row holds what was pushed, with the status of the answer, which is also counted and written to
-- the audit log. The status is validated exactly if the payload lists what active rows reach in at
-- most 6 edges, and a mismatch otherwise; then no link is written.
pub process-validated_iff :
    (payload : DerivationRequest) (org user : ℕ) (core : Core) (s : ℕ)
    → Distinct (map (λ n. n.id) core.session.nodes)
    → validate_obligation_control_ids (submitted payload) (load_active_catalog core.session org)
      ≡ []
    → resolve_ai_system_node_id core.session org payload.ai_system_id ≡ some (some s)
    → NotTerminal (node_lookup (node_entries core.session) s)
    → (core' : Core) × (matches : Bool) × (i : ℕ) × (r : ReferenceDerived) × (process_one_derivation
          payload org user core
        ≡ some (core', recorded (if matches then validated else flagged_mismatch) i r))
      × IsPersisted payload org user core core' (if matches then validated else flagged_mismatch) i
      × ((matches ≡ true) ↔ Exact core s payload)
      × (matches ≡ false → core'.session.links ≡ core.session.links)
unfolding process_one_derivation process_checked compare_and_store derive_obligations_reference
    submitted reference_ids
process-validated_iff payload org user core s ids known found plain =
    let nodes = node_entries core.session in
    let edges = edge_entries core.session in
    let (r, ends, obligations, controls) = reference-agrees nodes edges s 6 plain in
    let matches = compare_derivation (submitted payload) (reference_ids r) in
    let (same_to, same_from) = compare_derivation_iff (submitted payload) (reference_ids r) in
    let stored = store_derivation payload org user core r matches in
    let rows = λ (t k : Text). CoreDerived-iff core.session 6 s t k ids in
    let obligation_rows = λ (k : Text). Iff.trans (obligations k) (rows node_obligation k) in
    let control_rows = λ (k : Text). Iff.trans (controls k) (rows node_control_type k) in
    (
      stored.0,
      matches,
      core.session.next_id,
      r,
      rw (known, found, ends)
          (ap (λ a. some (stored.0, a)) (store_derivation-answer payload org user core r matches)),
      store_derivation-IsPersisted payload org user core r matches,
      (
        λ h.
            let same = same_to h in
            (
              λ k. Iff.trans (same.0 k) (obligation_rows k),
              λ k. Iff.trans (same.1 k) (control_rows k),
            ),
        λ exact. same_from (
          λ k. Iff.trans (exact.0 k) (Iff.symm (obligation_rows k)),
          λ k. Iff.trans (exact.1 k) (Iff.symm (control_rows k)),
        ),
      ),
      store_derivation-links payload org user core r matches,
    )

-- An answer that rejects the derivation leaves the database, the metrics and the audit log as they
-- were.
abbrev pub IsRejection : Answer → Type 0
IsRejection (bad_references ids) = Unit
IsRejection (unknown_ai_system_node i) = Unit
IsRejection (recorded status i r) = ⊥

module _ (payload : DerivationRequest) (org user : ℕ) (core core' : Core) (answer : Answer)
    (rejects : IsRejection answer) where
  not_stored :
      (matches : Bool) (r : ReferenceDerived)
      → ¬ (store_derivation payload org user core r matches ≡ (core', answer))
  unfolding store_derivation
  not_stored matches r e = rw (← ap (λ (p : Core × Answer). p.1) e) at rejects

  compare_and_store-rejected :
      (node : Option ℕ)
      → compare_and_store payload org user core node ≡ some (core', answer)
      → core' ≡ core
  unfolding compare_and_store
  compare_and_store-rejected none e = sym (ap (λ (p : Core × Answer). p.0) (some-injective _ _ e))
  compare_and_store-rejected (some s) e =
      elim (Option-cases
        (derive_obligations_reference core.session s resolve_max_traversal_depth)) [
          | inl q ↦ cc (rw q at e)
          | inr (r, q) ↦ absurd (not_stored _ r (some-injective _ _ (rw q at e)))
        ]

  process_checked-rejected :
      (bad : List Text)
      → process_checked payload org user core bad ≡ some (core', answer)
      → core' ≡ core
  unfolding process_checked
  process_checked-rejected [] e =
      elim (Option-cases (resolve_ai_system_node_id core.session org payload.ai_system_id)) [
        | inl q ↦ cc (rw q at e)
        | inr (node, q) ↦ compare_and_store-rejected node (rw q at e)
      ]
  process_checked-rejected (b ∷ bad) e =
      sym (ap (λ (p : Core × Answer). p.0) (some-injective _ _ e))

-- A derivation that is rejected leaves the database, the metrics and the audit log as they were.
pub process-rejected :
    (payload : DerivationRequest) (org user : ℕ) (core core' : Core) (answer : Answer)
    → process_one_derivation payload org user core ≡ some (core', answer)
    → IsRejection answer
    → core' ≡ core
unfolding process_one_derivation
process-rejected payload org user core core' answer h rejects =
    process_checked-rejected payload org user core core' answer rejects
      (validate_obligation_control_ids (submitted payload) (load_active_catalog core.session org)) h
