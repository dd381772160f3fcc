-- ===== src/Tests/Router.antt =====
-- The theorems about core-side-patch/routers/patent_knowledge_graph_p2.py and the searches of
-- core-side-patch/graph_query.py, at concrete inputs.
use mathlib.Core.List.Memᴰ
use p2_ai_knowledge_graph_fo.Base.{
  ℕ, ◌-◌, ◌*◌, ◌≤◌, ◌≡◌, refl, ap, ◌↔◌, ◌⊎◌, true, false, List, [], ◌∷◌, ◌++◌, map, Option, none,
  some, Text, codes, contains, contains_iff, length, take, Memᴰ, SameMembers, arith, list_beq,
  nat_eq, list_eq,
}
use p2_ai_knowledge_graph_fo.Schema.{node_ai_system, node_obligation}
use p2_ai_knowledge_graph_fo.Tables.{
  Session, GovernanceGraphNode, GovernanceGraphEdge, get_node, resolve_ai_system_node_id,
  get_node_by_natural_key, one_or_none, has_natural_key, node_id_of,
}
use p2_ai_knowledge_graph_fo.GraphQuery.{node_to_dict}
use p2_ai_knowledge_graph_fo.GraphQuery.Search.{
  EdgeDict, NodeDict, edge_to_dict, subgraph, get_subgraph, find_upstream_ai_systems,
  depth_or_default,
}
use p2_ai_knowledge_graph_fo.GraphQuery.OrgGraph.{OrgNode, UniqueIds}
use p2_ai_knowledge_graph_fo.GraphQuery.Subgraph.{Within, Followed, get_subgraph-exact}
use p2_ai_knowledge_graph_fo.GraphQuery.Upstream.{Upstream, find_upstream_ai_systems-exact}
use p2_ai_knowledge_graph_fo.Reference.{ReferenceDerived}
use p2_ai_knowledge_graph_fo.Ingest.{derive_obligations_reference, resolve_max_traversal_depth}
use p2_ai_knowledge_graph_fo.KnowledgeRouter.{
  Governance, AuditEntry, ManualEdgeCreateRequest, Envelope, ai_system_not_found, rate_limited,
  derivation, sync_queued, edge_created, derive_obligations_on_demand, sync_ai_system, browse_nodes,
  create_manual_edge_endpoint,
}
use p2_ai_knowledge_graph_fo.KnowledgeRouter.Derive.{
  charge, IsRecorded, manual_event, derive_obligations_on_demand-outcome, sync_ai_system-outcome,
}
use p2_ai_knowledge_graph_fo.KnowledgeRouter.Organisation.{EdgesWithinOrg}
use p2_ai_knowledge_graph_fo.KnowledgeRouter.Affected.{
  manual_edge, create_manual_edge_endpoint_complete,
}
use p2_ai_knowledge_graph_fo.KnowledgeRouter.Pages.{listing, browse_nodes-continues}
use p2_ai_knowledge_graph_fo.BreadthFirst.{Searching, search}
use p2_ai_knowledge_graph_fo.BreadthFirst.Ends.{search_returns}

abbrev system_row : ℕ → Text → GovernanceGraphNode
system_row id key = record {
  id = id;
  org_id = 7;
  node_type = node_ai_system;
  node_key = key;
  properties = [];
  archived = false;
}

abbrev duty_row : GovernanceGraphNode
duty_row = record (system_row 2 (codes "o")) { node_type = node_obligation }

abbrev edge_row : GovernanceGraphEdge
edge_row = record {
  id = 4;
  org_id = 7;
  source_node_id = 1;
  target_node_id = 2;
  edge_type = codes "risk_tier_adds";
  weight = 1;
  properties = [];
  is_active = true;
}

-- Two systems and an obligation; only the first system leads to it.
abbrev session : Session
session = record {
  nodes = system_row 1 (codes "a") ∷ duty_row ∷ system_row 3 (codes "b") ∷ [];
  edges = edge_row ∷ [];
  results = [];
  links = [];
  next_id = 5;
}

unique : UniqueIds session
unfolding contains
unique = (
  λ m. cc ((contains_iff {A = ℕ} 1 (2 ∷ 3 ∷ [])).1 m),
  (λ m. cc ((contains_iff {A = ℕ} 2 (3 ∷ [])).1 m), (λ m. Memᴰ.not-nil m, tt)),
)

found : resolve_ai_system_node_id session 7 (codes "a") ≡ some (some 1)
unfolding resolve_ai_system_node_id get_node_by_natural_key one_or_none has_natural_key node_id_of
    list_beq
found = refl

get_subgraph-exact_example :
    (nodes : List NodeDict) × (edges : List EdgeDict) × (get_subgraph session 7 (codes "a") (some 2)
      ≡ some (subgraph nodes edges))
    × ((d : NodeDict)
        → Memᴰ d nodes ↔ (
            (n : GovernanceGraphNode) × OrgNode session 7 n
            × Within session 7 1 (depth_or_default (some 2)) n.id
            × (d ≡ node_to_dict n)))
    × ((d : EdgeDict)
        → Memᴰ d edges ↔ (
            (e : GovernanceGraphEdge) × Followed session 7 1 (depth_or_default (some 2)) e
            × (d ≡ edge_to_dict e)))
get_subgraph-exact_example = get_subgraph-exact session 7 (codes "a") (some 2) 1 unique found

find_upstream_ai_systems-exact_example :
    (keys : List Text) × (find_upstream_ai_systems session 7 2 none ≡ some keys)
    × ((k : Text) → Memᴰ k keys ↔ Upstream session 7 2 (depth_or_default none) k)
find_upstream_ai_systems-exact_example = find_upstream_ai_systems-exact session 7 2 none unique

-- The edges of a triangle, as pairs of ids.
abbrev triangle : ℕ → List (ℕ × ℕ)
triangle u = (u, 1) ∷ []

abbrev ids : List ℕ
ids = 1 ∷ []

search_returns_example :
    (t : Searching (List ℕ)) × (search triangle (λ e. e.1) (λ e x. x) (λ v x. x) 6 (length ids) 0 []
      ≡ some t)
search_returns_example =
    search_returns triangle (λ e. e.1) (λ e x. x) (λ v x. x) 6 ids
      (λ u e m. Memᴰ.head (ap (λ (p : ℕ × ℕ). p.1) (Memᴰ.eq_of_singleton m))) 0 []

abbrev governance : Governance
governance = record {
  session = session;
  limiter = record { limit = 1; window_seconds = 60; windows = [] };
  events = [];
  audit_log = [];
}

abbrev first_system : Option ℕ
first_system = some 1

derive_obligations_on_demand-outcome_example :
    ((first_system ≡ none)
      × (derive_obligations_on_demand governance 0 7 9 (codes "a")
          ≡ some (governance, ai_system_not_found (codes "a"))))
    ⊎ ((i : ℕ) × (first_system ≡ some i)
        × ((charge governance 7 0).1 ≡ false)
        × (derive_obligations_on_demand governance 0 7 9 (codes "a")
            ≡ some (record governance { limiter = (charge governance 7 0).0 }, rate_limited 429)))
    ⊎ ((i : ℕ) × (first_system ≡ some i)
        × ((charge governance 7 0).1 ≡ true)
        × ((r : ReferenceDerived) × (g' : Governance) × (id : ℕ) × (derive_obligations_reference
                session i resolve_max_traversal_depth
              ≡ some r)
            × (derive_obligations_on_demand governance 0 7 9 (codes "a")
                ≡ some (g', derivation id r))
            × (g'.limiter ≡ (charge governance 7 0).0)
            × IsRecorded governance g' 7 9 (codes "a") id r))
derive_obligations_on_demand-outcome_example =
    derive_obligations_on_demand-outcome governance 0 7 9 (codes "a") first_system found

sync_ai_system-outcome_example :
    ((first_system ≡ none)
      × (sync_ai_system governance 5 7 9 (codes "a")
          ≡ some (governance, ai_system_not_found (codes "a"))))
    ⊎ ((node_id : ℕ) × (first_system ≡ some node_id)
        × (g' : Governance) × (entry : AuditEntry) × (sync_ai_system governance 5 7 9 (codes "a")
            ≡ some (g', sync_queued (codes "a") 1))
        × (g'.events ≡ manual_event 5 7 (codes "a") ∷ [])
        × (g'.audit_log ≡ entry ∷ [])
        × (g'.session ≡ session)
        × (g'.limiter ≡ governance.limiter))
sync_ai_system-outcome_example =
    sync_ai_system-outcome governance 5 7 9 (codes "a") first_system found

browse_nodes-continues_example :
    (shown : Envelope NodeDict) × (browse_nodes governance 7 none 2 1 ≡ some shown)
    × (shown.total ≡ length (listing governance 7 none))
    × (shown.count ≡ length shown.items)
    × (shown.count ≤ 1)
    × (take ((2 - 1) * 1) (listing governance 7 none) ++ shown.items
        ≡ take (2 * 1) (listing governance 7 none))
browse_nodes-continues_example =
    browse_nodes-continues governance 7 none 2 1 (omega arith) (omega arith) (omega arith)

within : EdgesWithinOrg session
within e m active = rw (Memᴰ.eq_of_singleton m) (
  (system_row 1 (codes "a"), Memᴰ.head refl, refl, refl),
  (duty_row, Memᴰ.tail (Memᴰ.head refl), refl, refl),
)

-- An edge from the second system to the obligation.
abbrev edge_request : ManualEdgeCreateRequest
edge_request = record {
  source_node_id = 3;
  target_node_id = 2;
  edge_type = codes "risk_tier_adds";
  weight = 1;
  properties = [];
}

source_found : get_node session 7 3 ≡ some (some (system_row 3 (codes "b")))
unfolding get_node one_or_none
source_found = refl

target_found : get_node session 7 2 ≡ some (some duty_row)
unfolding get_node one_or_none
target_found = refl

create_manual_edge_endpoint_complete_example :
    (g' : Governance) × (keys : List Text) × (create_manual_edge_endpoint governance 5 7 9
        edge_request
      ≡ some (g', edge_created (manual_edge session 7 9 edge_request) keys))
    × (g'.events ≡ map (manual_event 5 7) keys)
    × EdgesWithinOrg g'.session
    × (Memᴰ (codes "a") keys
        ⊎ ((r : ReferenceDerived) × (r' : ReferenceDerived) × (derive_obligations_reference session
                1 resolve_max_traversal_depth
              ≡ some r)
            × (derive_obligations_reference g'.session 1 resolve_max_traversal_depth ≡ some r')
            × SameMembers r.derived_obligations r'.derived_obligations
            × SameMembers r.derived_controls r'.derived_controls))
create_manual_edge_endpoint_complete_example =
    create_manual_edge_endpoint_complete governance 5 7 9 edge_request (system_row 3 (codes "b"))
      duty_row (system_row 1 (codes "a")) unique within source_found target_found
      (Memᴰ.head refl, refl, refl) refl
