-- ===== src/Tests/Store.antt =====
-- The theorems about core-side-patch/models.py, its ingest router and graph queries, at concrete inputs.
use mathlib.Core.List.Memᴰ
use p2_ai_knowledge_graph_fo.Base.{
  ℕ, ◌≡◌, refl, sym, ap, ◌∙◌, Bool, true, false, List, [], ◌∷◌, none, some, Text, codes, Memᴰ, ◌↔◌,
  Distinct, map, arith, inl, inr, if◌then◌else◌, list_beq, list_eq, nat_eq, contains, to_set, add,
}
use p2_ai_knowledge_graph_fo.Tables.{
  Session, GovernanceGraphNode, GovernanceGraphEdge, create_manual_edge, load_active_catalog,
  active_keys, resolve_ai_system_node_id, get_node_by_natural_key, one_or_none, has_natural_key,
  node_id_of, upsert_ai_system_obligation_links,
}
use p2_ai_knowledge_graph_fo.Tables.Upsert.{
  NodeStructureItem, EdgeStructureItem, upsert_graph_structure,
}
use p2_ai_knowledge_graph_fo.Tables.Upsert.Raises.{upsert_graph_structure-repeated}
use p2_ai_knowledge_graph_fo.Tables.Upsert.Nodes.{NodesUnique}
use p2_ai_knowledge_graph_fo.Tables.Links.{upsert_links-idempotent}
use p2_ai_knowledge_graph_fo.Schema.{node_ai_system, node_obligation}
use p2_ai_knowledge_graph_fo.Reference.{ReferenceDerived, node_lookup}
use p2_ai_knowledge_graph_fo.Reference.Correct.{NotTerminal}
use p2_ai_knowledge_graph_fo.Validation.{validate_obligation_control_ids}
use p2_ai_knowledge_graph_fo.MismatchMetrics.{flagged_mismatch}
use p2_ai_knowledge_graph_fo.Ingest.{
  DerivationRequest, Core, bad_references, recorded, validated, submitted, node_entries,
  process_one_derivation, process_checked,
}
use p2_ai_knowledge_graph_fo.Ingest.Persisted.{IsPersisted}
use p2_ai_knowledge_graph_fo.Ingest.Contract.{Exact, process-validated_iff, process-rejected}

abbrev system_row : GovernanceGraphNode
system_row = record {
  id = 1;
  org_id = 7;
  node_type = node_ai_system;
  node_key = codes "1";
  properties = [];
  archived = false;
}

abbrev obligation_row : GovernanceGraphNode
obligation_row = record {
  id = 2;
  org_id = 7;
  node_type = node_obligation;
  node_key = codes "o";
  properties = [];
  archived = false;
}

abbrev pub edge_row : GovernanceGraphEdge
edge_row = record {
  id = 3;
  org_id = 7;
  source_node_id = 1;
  target_node_id = 2;
  edge_type = codes "risk_tier_adds";
  weight = 1;
  properties = [];
  is_active = true;
}

abbrev pub session : Session
session = record {
  nodes = system_row ∷ obligation_row ∷ [];
  edges = edge_row ∷ [];
  results = [];
  links = [];
  next_id = 4;
}

abbrev core : Core
core = record { session = session; metrics = []; audit_log = [] }

abbrev request : List Text → DerivationRequest
request obligations = record {
  ai_system_id = codes "1";
  derived_obligations = obligations;
  derived_controls = [];
  graph_path = none;
  methodology_version = codes "v";
  trigger_reason = codes "event";
  derivation_hash = codes "h";
}

abbrev pushed_edge : EdgeStructureItem
pushed_edge = record {
  source_node_type = node_ai_system;
  source_node_key = codes "1";
  target_node_type = node_obligation;
  target_node_key = codes "o";
  edge_type = codes "risk_tier_adds";
  is_active = true;
  weight = 1;
  properties = [];
}

distinct_ids : Distinct (map (λ n. n.id) session.nodes)
distinct_ids = (
  (λ m. elim (Memᴰ.cases_cons m) [ inl e ↦ omega (arith, e) | inr later ↦ Memᴰ.not-nil later ]),
  (Memᴰ.not-nil, _),
)

rows-NodesUnique : NodesUnique session
rows-NodesUnique = record {
  ids = distinct_ids;
  bounded = λ n m. elim (Memᴰ.cases_cons m) [
    | inl e ↦ rw e (omega arith)
    | inr later ↦ rw (Memᴰ.eq_of_singleton later) (omega arith)
  ];
  keys = λ n m in_n in_m _ t _. elim (Memᴰ.cases_cons in_n) [
    | inl e ↦ elim (Memᴰ.cases_cons in_m) [
      | inl e' ↦ cc (e, e')
      | inr later ↦
          let d : node_ai_system ≡ node_obligation =
            sym (ap (λ (r : GovernanceGraphNode). r.node_type) e)
            ∙ t
            ∙ ap (λ (r : GovernanceGraphNode). r.node_type) (Memᴰ.eq_of_singleton later) in
          cc d
    ]
    | inr last ↦ elim (Memᴰ.cases_cons in_m) [
      | inl e' ↦
          let d : node_ai_system ≡ node_obligation =
            sym (ap (λ (r : GovernanceGraphNode). r.node_type) e')
            ∙ sym t
            ∙ ap (λ (r : GovernanceGraphNode). r.node_type) (Memᴰ.eq_of_singleton last) in
          cc d
      | inr later ↦ cc (Memᴰ.eq_of_singleton last, Memᴰ.eq_of_singleton later)
    ]
  ];
}

abbrev pushed_nodes : List NodeStructureItem
pushed_nodes =
    record { node_type = node_ai_system; node_key = codes "1"; properties = [] }
    ∷ record { node_type = node_obligation; node_key = codes "o"; properties = [] }
    ∷ []

upsert_graph_structure-repeated_example :
    upsert_graph_structure
      (create_manual_edge session 7 1 2 (codes "risk_tier_adds") 5 []).0
      7
      pushed_nodes
      (pushed_edge ∷ [])
    ≡ none
upsert_graph_structure-repeated_example =
    upsert_graph_structure-repeated session 7 1 2 5 [] edge_row pushed_nodes (pushed_edge ∷ [])
      pushed_edge rows-NodesUnique (system_row, Memᴰ.head refl, refl)
      (obligation_row, Memᴰ.tail (Memᴰ.head refl), refl) (Memᴰ.head refl) refl refl refl refl
      (Memᴰ.head refl)
      (λ f m. rw (Memᴰ.eq_of_singleton m) (Memᴰ.head refl, Memᴰ.tail (Memᴰ.head refl)))

upsert_links-idempotent_example :
    (upsert_ai_system_obligation_links
      (upsert_ai_system_obligation_links session 7 (codes "1") (codes "o" ∷ []) []).0
      7
      (codes "1")
      (codes "o" ∷ [])
      []).1
    ≡ []
upsert_links-idempotent_example = upsert_links-idempotent session 7 (codes "1") (codes "o" ∷ []) []

known :
    validate_obligation_control_ids
      (submitted (request (codes "o" ∷ [])))
      (load_active_catalog session 7)
    ≡ []
unfolding validate_obligation_control_ids submitted load_active_catalog active_keys list_beq
    contains to_set add
known = refl

found : resolve_ai_system_node_id session 7 (codes "1") ≡ some (some 1)
unfolding resolve_ai_system_node_id get_node_by_natural_key one_or_none has_natural_key node_id_of
    list_beq
found = refl

plain : NotTerminal (node_lookup (node_entries session) 1)
unfolding node_lookup node_entries
plain = (λ e. cc e, λ e. cc e)

process-validated_iff_example :
    (core' : Core) × (matches : Bool) × (i : ℕ) × (r : ReferenceDerived) × (process_one_derivation
        (request (codes "o" ∷ []))
        7
        9
        core
      ≡ some (core', recorded (if matches then validated else flagged_mismatch) i r))
    × IsPersisted
        (request (codes "o" ∷ []))
        7
        9
        core
        core'
        (if matches then validated else flagged_mismatch)
        i
    × ((matches ≡ true) ↔ Exact core 1 (request (codes "o" ∷ [])))
    × (matches ≡ false → core'.session.links ≡ session.links)
process-validated_iff_example =
    process-validated_iff (request (codes "o" ∷ [])) 7 9 core 1 distinct_ids known found plain

unknown_refused :
    process_one_derivation (request (codes "x" ∷ [])) 7 9 core
    ≡ some (core, bad_references (codes "x" ∷ []))
unfolding process_one_derivation process_checked validate_obligation_control_ids submitted
    load_active_catalog active_keys list_beq contains to_set add
unknown_refused = refl

process-rejected_example : core ≡ core
process-rejected_example =
    process-rejected (request (codes "x" ∷ [])) 7 9 core core (bad_references (codes "x" ∷ []))
      unknown_refused _
