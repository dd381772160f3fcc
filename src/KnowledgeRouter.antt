-- ===== src/KnowledgeRouter.antt =====
-- core-side-patch/routers/patent_knowledge_graph_p2.py: the six endpoints. Who asks, the organisation
-- and the clock are arguments. (The stub of require_permission lets every request through, and the
-- html page is pyvis's: neither is modelled.)
pub mod Derive
pub mod Organisation
pub mod Edges
pub mod Affected
pub mod Pages
use p2_ai_knowledge_graph_fo.Base.{
  ℕ, ◌+◌, suc, Bool, true, false, ◌&&◌, List, [], ◌∷◌, ◌++◌, foldl, Option, none, some, Text, codes,
  put, decimal, length, leb, if◌then◌else◌, ◌>>=◌, list_eq, nat_eq,
}
use p2_ai_knowledge_graph_fo.Tables.{
  Properties, Session, GovernanceGraphNode, GovernanceGraphEdge, get_node, create_manual_edge,
  resolve_ai_system_node_id,
}
use p2_ai_knowledge_graph_fo.Reference.{ReferenceDerived}
use p2_ai_knowledge_graph_fo.RateLimiter.{
  FixedWindowRateLimiter, require_on_demand_derive_rate_limit,
}
use p2_ai_knowledge_graph_fo.Outbox.{ChangeEvent, manual_trigger_reason, emit_manual_change_event}
use p2_ai_knowledge_graph_fo.GraphQuery.{
  OnDemand, unknown_ai_system, derived, Gap, derive_and_persist_traversal, list_nodes,
  find_coverage_gaps,
}
use p2_ai_knowledge_graph_fo.GraphQuery.Search.{
  NodeDict, EdgeDict, Subgraph, get_subgraph, find_upstream_ai_systems,
}
use p2_ai_knowledge_graph_fo.GraphQuery.Search

pub data AuditPayload : Type 0 where
  -- the system and the id of the result, or of the change event
  of_system : Text → ℕ → AuditPayload
  -- the edge's id, source, target and type
  of_edge : ℕ → ℕ → ℕ → Text → AuditPayload

pub record AuditEntry : Type 0 where
  pub org_id : ℕ
  pub actor_id : ℕ
  pub event_type : Text
  pub payload : AuditPayload

-- What a request of a customer reads and changes. A change event's id is its number in the table.
pub record Governance : Type 0 where
  pub session : Session
  pub limiter : FixedWindowRateLimiter
  pub events : List ChangeEvent
  pub audit_log : List AuditEntry

unfoldable pub write_audit_log : Governance → AuditEntry → Governance
write_audit_log g entry = record g { audit_log = g.audit_log ++ entry ∷ [] }

-- `items`, `meta["count"]`, `meta["total"]`
pub record Envelope (A : Type 0) : Type 0 where
  pub items : List A
  pub count : ℕ
  pub total : ℕ

unfoldable pub envelope : {A : Type 0} → List A → ℕ → Envelope A
envelope items total = record { items = items; count = length items; total = total }

pub record ManualEdgeCreateRequest : Type 0 where
  pub source_node_id : ℕ
  pub target_node_id : ℕ
  pub edge_type : Text
  pub weight : ℕ
  pub properties : Properties

pub data Answer : Type 0 where
  -- 404, 429, the two 422, and an exception that the endpoint does not catch
  ai_system_not_found : Text → Answer
  rate_limited : ℕ → Answer
  unknown_source_node_id : ℕ → Answer
  unknown_target_node_id : ℕ → Answer
  raised : Answer
  -- the id of the stored result, and what was derived
  derivation : ℕ → ReferenceDerived → Answer
  -- the edge, and affected_ai_system_ids
  edge_created : GovernanceGraphEdge → List Text → Answer
  -- the id of the change event
  sync_queued : Text → ℕ → Answer

-- From `derive_and_persist_traversal` on.
unfoldable pub audit_derivation : Governance → ℕ → ℕ → Text → OnDemand → Governance × Answer
audit_derivation g org_id user_id ai_system_id unknown_ai_system = (g, raised)
audit_derivation g org_id user_id ai_system_id (derived session id r) = (
  write_audit_log (record g { session = session })
      (record {
        org_id = org_id;
        actor_id = user_id;
        event_type = codes "governance_graph.on_demand_derivation";
        payload = of_system ai_system_id id;
      }),
  derivation id r,
)

abbrev pub on_demand : Text
on_demand = codes "on_demand"

-- After the rate limit has answered.
unfoldable pub derive_if_allowed :
    Governance → ℕ → ℕ → Text → Option ℕ → Option (Governance × Answer)
derive_if_allowed g org_id user_id ai_system_id (some status) = some (g, rate_limited status)
derive_if_allowed g org_id user_id ai_system_id none = do
  d ← derive_and_persist_traversal g.session org_id ai_system_id on_demand true
  some (audit_derivation g org_id user_id ai_system_id d)

unfoldable pub derive_for_node :
    Governance → ℕ → ℕ → ℕ → Text → Option ℕ → Option (Governance × Answer)
derive_for_node g now org_id user_id ai_system_id none = some (g, ai_system_not_found ai_system_id)
derive_for_node g now org_id user_id ai_system_id (some node_id) =
    let (limiter, status) = require_on_demand_derive_rate_limit g.limiter (decimal org_id) now in
    derive_if_allowed (record g { limiter = limiter }) org_id user_id ai_system_id status

-- `none` here and below is the exception of a query of one row that finds several.
unfoldable pub derive_obligations_on_demand :
    Governance → ℕ → ℕ → ℕ → Text → Option (Governance × Answer)
derive_obligations_on_demand g now org_id user_id ai_system_id = do
  node ← resolve_ai_system_node_id g.session org_id ai_system_id
  derive_for_node g now org_id user_id ai_system_id node

-- `format=json`; an unknown system is answered with 404.
unfoldable pub get_ai_system_graph : Governance → ℕ → Text → Option Subgraph
get_ai_system_graph g org_id ai_system_id = get_subgraph g.session org_id ai_system_id none

unfoldable pub emit_for : ℕ → ℕ → List ChangeEvent → Text → List ChangeEvent
emit_for now org_id events ai_system_id =
    emit_manual_change_event events now org_id ai_system_id manual_trigger_reason

unfoldable pub manual_properties : ManualEdgeCreateRequest → ℕ → Properties
manual_properties payload user_id =
    put (codes "added_by") (decimal user_id)
      (put (codes "source") (codes "manual") payload.properties)

-- From `create_manual_edge` on.
unfoldable pub add_edge :
    Governance → ℕ → ℕ → ℕ → ManualEdgeCreateRequest → Option (Governance × Answer)
add_edge g now org_id user_id payload =
    let (session, edge) =
      create_manual_edge g.session org_id payload.source_node_id payload.target_node_id
        payload.edge_type payload.weight (manual_properties payload user_id) in
    let audited =
      write_audit_log (record g { session = session })
        (record {
          org_id = org_id;
          actor_id = user_id;
          event_type = codes "governance_graph.manual_edge_added";
          payload = of_edge edge.id payload.source_node_id payload.target_node_id payload.edge_type;
        }) in
    do
      affected ← find_upstream_ai_systems session org_id payload.source_node_id none
      some (
        record audited { events = foldl (emit_for now org_id) audited.events affected },
        edge_created edge affected,
      )

unfoldable pub add_edge_to :
    Governance
    → ℕ
    → ℕ
    → ℕ
    → ManualEdgeCreateRequest
    → Option GovernanceGraphNode
    → Option (Governance × Answer)
add_edge_to g now org_id user_id payload none =
    some (g, unknown_target_node_id payload.target_node_id)
add_edge_to g now org_id user_id payload (some target) = add_edge g now org_id user_id payload

-- The target is asked for once the source was found.
unfoldable pub add_edge_from :
    Governance
    → ℕ
    → ℕ
    → ℕ
    → ManualEdgeCreateRequest
    → Option GovernanceGraphNode
    → Option (Governance × Answer)
add_edge_from g now org_id user_id payload none =
    some (g, unknown_source_node_id payload.source_node_id)
add_edge_from g now org_id user_id payload (some source) = do
  target ← get_node g.session org_id payload.target_node_id
  add_edge_to g now org_id user_id payload target

unfoldable pub create_manual_edge_endpoint :
    Governance → ℕ → ℕ → ℕ → ManualEdgeCreateRequest → Option (Governance × Answer)
create_manual_edge_endpoint g now org_id user_id payload = do
  source ← get_node g.session org_id payload.source_node_id
  add_edge_from g now org_id user_id payload source

-- `none` is the 422 of a query parameter out of its bounds.
unfoldable pub browse_nodes : Governance → ℕ → Option Text → ℕ → ℕ → Option (Envelope NodeDict)
browse_nodes g org_id node_type page page_size =
    let (items, total) = list_nodes g.session org_id node_type page page_size in
    if leb 1 page && leb 1 page_size && leb page_size 200 then some (envelope items total) else none

unfoldable pub sync_node : Governance → ℕ → ℕ → ℕ → Text → Option ℕ → Governance × Answer
sync_node g now org_id user_id ai_system_id none = (g, ai_system_not_found ai_system_id)
sync_node g now org_id user_id ai_system_id (some node_id) =
    let events = emit_for now org_id g.events ai_system_id in
    let event_id = length events in
    (
      write_audit_log (record g { events = events })
          (record {
            org_id = org_id;
            actor_id = user_id;
            event_type = codes "governance_graph.manual_sync_requested";
            payload = of_system ai_system_id event_id;
          }),
      sync_queued ai_system_id event_id,
    )

unfoldable pub sync_ai_system : Governance → ℕ → ℕ → ℕ → Text → Option (Governance × Answer)
sync_ai_system g now org_id user_id ai_system_id = do
  node ← resolve_ai_system_node_id g.session org_id ai_system_id
  some (sync_node g now org_id user_id ai_system_id node)

unfoldable pub get_coverage_gaps : Governance → ℕ → Envelope Gap
get_coverage_gaps g org_id =
    let gaps = find_coverage_gaps g.session org_id in envelope gaps (length gaps)
