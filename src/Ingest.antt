-- ===== src/Ingest.antt =====
-- core-side-patch/routers/patent_ingest_p2.py: what core does with a derivation that the satellite
-- pushes, alone and in a batch, and with a graph structure.
pub mod Contract
pub mod Batch
pub mod Entries
pub mod Persisted
pub mod Routes
use p2_ai_knowledge_graph_fo.Base.{
  ℕ, ◌+◌, suc, Bool, true, false, List, [], ◌∷◌, ◌++◌, Option, none, some, Text, codes, map, length,
  if◌then◌else◌, ◌>>=◌,
}
use p2_ai_knowledge_graph_fo.Tables.{
  Session, TraversalResult, GovernanceGraphNode, GovernanceGraphEdge, load_active_catalog,
  resolve_ai_system_node_id, upsert_ai_system_obligation_links,
}
use p2_ai_knowledge_graph_fo.Tables.Upsert.{
  NodeStructureItem, EdgeStructureItem, Counts, upsert_graph_structure,
}
use p2_ai_knowledge_graph_fo.Reference.{
  NodeEntry, EdgeEntry, ReferenceDerived, derive_obligations_pure_python,
}
use p2_ai_knowledge_graph_fo.Validation.{
  DerivedIds, validate_obligation_control_ids, compare_derivation,
}
use p2_ai_knowledge_graph_fo.RateLimiter.{
  FixedWindowRateLimiter, require_ingest_rate_limit, require_ingest_rate_limit_n,
}
use p2_ai_knowledge_graph_fo.MismatchMetrics.{Records, flagged_mismatch, add_record}

pub record DerivationRequest : Type 0 where
  pub ai_system_id : Text
  pub derived_obligations : List Text
  pub derived_controls : List Text
  pub graph_path : Option (List (List Text))
  pub methodology_version : Text
  pub trigger_reason : Text
  pub derivation_hash : Text

-- An entry of the audit log: organisation, actor, event type, and the status or the hash it names.
abbrev pub AuditEntry : Type 0
AuditEntry = ℕ × ℕ × Text × Text

-- What the routes change: the database, the metrics, the audit log.
pub record Core : Type 0 where
  pub session : Session
  pub metrics : Records
  pub audit_log : List AuditEntry

pub data Answer : Type 0 where
  -- 422 with the ids, 422 with the system
  bad_references : List Text → Answer
  unknown_ai_system_node : Text → Answer
  -- the status, the id of the stored result, and what core derived
  recorded : Text → ℕ → ReferenceDerived → Answer

abbrev pub validated : Text
validated = codes "validated"

-- `resolve_max_traversal_depth()` of graph_query.py
abbrev pub resolve_max_traversal_depth : ℕ
resolve_max_traversal_depth = 6

-- `_load_active_nodes_edges_via_orm` of reference_traversal_cte.py: the rows of every organisation
unfoldable pub node_entries : Session → List NodeEntry
node_entries session =
    map (λ n. record { id = n.id; node_type = n.node_type; node_key = n.node_key }) session.nodes

unfoldable pub edge_entries : Session → List EdgeEntry
edge_entries session =
    map
      (λ e. record {
        source_id = e.source_node_id;
        target_id = e.target_node_id;
        edge_type = e.edge_type;
        is_active = e.is_active;
      })
      session.edges

-- `derive_obligations_reference` on a dialect other than Postgres
unfoldable pub derive_obligations_reference : Session → ℕ → ℕ → Option ReferenceDerived
derive_obligations_reference session ai_system_node_id max_traversal_depth =
    derive_obligations_pure_python (node_entries session) (edge_entries session) ai_system_node_id
      max_traversal_depth

unfoldable pub submitted : DerivationRequest → DerivedIds
submitted payload = record {
  derived_obligations = payload.derived_obligations;
  derived_controls = payload.derived_controls;
}

unfoldable pub reference_ids : ReferenceDerived → DerivedIds
reference_ids r = record {
  derived_obligations = r.derived_obligations;
  derived_controls = r.derived_controls;
}

unfoldable pub input_context : DerivationRequest → List (Text × Text)
input_context payload =
    (codes "trigger_reason", payload.trigger_reason)
    ∷ (codes "derivation_hash", payload.derivation_hash)
    ∷ []

-- Steps 3 and 4, with the verdict.
unfoldable pub store_derivation :
    DerivationRequest → ℕ → ℕ → Core → ReferenceDerived → Bool → Core × Answer
store_derivation payload org_id user_id core reference_derived matches =
    let validation_status = if matches then validated else flagged_mismatch in
    let result : TraversalResult = record {
      id = core.session.next_id;
      org_id = org_id;
      ai_system_id = payload.ai_system_id;
      input_context = input_context payload;
      derived_obligations = payload.derived_obligations;
      derived_controls = payload.derived_controls;
      graph_path = payload.graph_path;
      methodology_version = payload.methodology_version;
      trigger_reason = payload.trigger_reason;
      validation_status = validation_status;
    } in
    let stored : Session = record (core.session) {
      results = core.session.results ++ result ∷ [];
      next_id = suc core.session.next_id;
    } in
    (
      record {
        session =
            if matches
            then (upsert_ai_system_obligation_links stored org_id payload.ai_system_id
                payload.derived_obligations payload.derived_controls).0
            else stored;
        metrics = add_record org_id validation_status core.metrics;
        audit_log =
            core.audit_log
            ++ (
              org_id,
              user_id,
              codes "governance_graph.obligation_derivation_ingest",
              validation_status,
            )
              ∷ [];
      },
      recorded validation_status result.id reference_derived,
    )

-- Step 2.
unfoldable pub compare_and_store :
    DerivationRequest → ℕ → ℕ → Core → Option ℕ → Option (Core × Answer)
compare_and_store payload org_id user_id core none =
    some (core, unknown_ai_system_node payload.ai_system_id)
compare_and_store payload org_id user_id core (some ai_system_node_id) = do
  r ← derive_obligations_reference core.session ai_system_node_id resolve_max_traversal_depth
  some (
      store_derivation payload org_id user_id core r
        (compare_derivation (submitted payload) (reference_ids r)))

-- Step 1.
unfoldable pub process_checked :
    DerivationRequest → ℕ → ℕ → Core → List Text → Option (Core × Answer)
process_checked payload org_id user_id core [] = do
  node ← resolve_ai_system_node_id core.session org_id payload.ai_system_id
  compare_and_store payload org_id user_id core node
process_checked payload org_id user_id core (bad ∷ bad_ids) =
    some (core, bad_references (bad ∷ bad_ids))

-- `_process_one_derivation`; `none` if a query of one row finds several.
unfoldable pub process_one_derivation : DerivationRequest → ℕ → ℕ → Core → Option (Core × Answer)
process_one_derivation payload org_id user_id core =
    process_checked payload org_id user_id core (
      validate_obligation_control_ids (submitted payload) (load_active_catalog core.session org_id))

-- The loop of the batch route: each answer goes with the id of its system. `none` if a query of one row
-- finds several in some item; what the items before it committed is then not told.
unfoldable pub process_batch :
    List DerivationRequest → ℕ → ℕ → Core → Option (Core × List (Text × Answer))
process_batch [] org_id user_id core = some (core, [])
process_batch (item ∷ items) org_id user_id core = do
  one ← process_one_derivation item org_id user_id core
  rest ← process_batch items org_id user_id one.0
  some (rest.0, (item.ai_system_id, one.1) ∷ rest.1)

-- `post_obligation_derivations_batch`: a status that the rate limit answers with, or the results.
unfoldable pub answer_batch :
    List DerivationRequest → ℕ → ℕ → Core → Option ℕ → Option (Core × Option (List (Text × Answer)))
answer_batch derivations org_id user_id core (some status) = some (core, none)
answer_batch derivations org_id user_id core none = do
  done ← process_batch derivations org_id user_id core
  some (done.0, some done.1)

unfoldable pub post_obligation_derivations_batch :
    FixedWindowRateLimiter
    → Text
    → ℕ
    → List DerivationRequest
    → ℕ
    → ℕ
    → Core
    → FixedWindowRateLimiter × Option (Core × Option (List (Text × Answer)))
post_obligation_derivations_batch limiter scoped_key now derivations org_id user_id core =
    let (limiter', status) =
      require_ingest_rate_limit_n limiter scoped_key (length derivations) now in
    (limiter', answer_batch derivations org_id user_id core status)

-- `post_graph_structure`, after the rate limit.
unfoldable pub post_graph_structure :
    Text → List NodeStructureItem → List EdgeStructureItem → ℕ → ℕ → Core → Option (Core × Counts)
post_graph_structure structure_hash nodes edges org_id user_id core = do
  done ← upsert_graph_structure core.session org_id nodes edges
  some (
    record core {
      session = done.0;
      audit_log =
          core.audit_log
          ++ (org_id, user_id, codes "governance_graph.structure_ingest", structure_hash) ∷ [];
    },
    done.1,
  )
