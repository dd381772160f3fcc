-- ===== src/KnowledgeRouter/Affected.antt =====
-- core-side-patch/routers/patent_knowledge_graph_p2.py: the endpoint for a manual edge tells every
-- system whose derivation the edge changes.
use p2_ai_knowledge_graph_fo.Base.{
  ℕ, suc, ◌≡◌, refl, ◌⊎◌, inl, inr, true, List, [], ◌∷◌, ◌++◌, map, foldl, none, some, Text, Memᴰ,
  SameMembers, codes, contains, contains_iff, list_eq, nat_eq, Bool-cases, sym, ◌∙◌, append-nil,
  append_assoc,
}
use p2_ai_knowledge_graph_fo.Schema.{node_ai_system}
use p2_ai_knowledge_graph_fo.Tables.{
  Session, GovernanceGraphNode, GovernanceGraphEdge, get_node, create_manual_edge,
}
use p2_ai_knowledge_graph_fo.Reference.{ReferenceDerived}
use p2_ai_knowledge_graph_fo.Ingest.{derive_obligations_reference, resolve_max_traversal_depth}
use p2_ai_knowledge_graph_fo.Outbox.{ChangeEvent, emit_manual_change_event, write_change_event}
use p2_ai_knowledge_graph_fo.GraphQuery.Search.{find_upstream_ai_systems, depth_or_default}
use p2_ai_knowledge_graph_fo.GraphQuery.OrgGraph.{OrgNode, UniqueIds}
use p2_ai_knowledge_graph_fo.GraphQuery.Upstream.{find_upstream_ai_systems-exact}
use p2_ai_knowledge_graph_fo.KnowledgeRouter.{
  Governance, ManualEdgeCreateRequest, edge_created, create_manual_edge_endpoint, add_edge_from,
  add_edge_to, add_edge, manual_properties, write_audit_log, emit_for, of_edge,
}
use p2_ai_knowledge_graph_fo.KnowledgeRouter.Organisation.{EdgesWithinOrg}
use p2_ai_knowledge_graph_fo.KnowledgeRouter.Derive.{manual_event}
use p2_ai_knowledge_graph_fo.KnowledgeRouter.Edges.{
  with_edge, with_edge-EdgesWithinOrg, same_derivation, get_node-InOrg,
}

events_added :
    (now org_id : ℕ) (events : List ChangeEvent) (keys : List Text)
    → foldl (emit_for now org_id) events keys ≡ events ++ map (manual_event now org_id) keys
unfolding emit_for emit_manual_change_event write_change_event
events_added now org_id events [] = sym (append-nil events)
events_added now org_id events (k ∷ keys) =
    events_added now org_id (events ++ manual_event now org_id k ∷ []) keys
    ∙ append_assoc events (manual_event now org_id k ∷ []) (map (manual_event now org_id) keys)

-- The edge that the endpoint makes.
abbrev pub manual_edge : Session → ℕ → ℕ → ManualEdgeCreateRequest → GovernanceGraphEdge
manual_edge session org_id user_id payload = record {
  id = session.next_id;
  org_id = org_id;
  source_node_id = payload.source_node_id;
  target_node_id = payload.target_node_id;
  edge_type = payload.edge_type;
  weight = payload.weight;
  properties = manual_properties payload user_id;
  is_active = true;
}

module _ (g : Governance) (now org_id user_id : ℕ) (payload : ManualEdgeCreateRequest) where
  -- The database with the edge.
  abbrev pub edge_added : Session
  edge_added =
      with_edge g.session org_id (manual_edge g.session org_id user_id payload)
        (suc g.session.next_id)

  endpoint_returns :
      (source target : GovernanceGraphNode) (keys : List Text)
      → get_node g.session org_id payload.source_node_id ≡ some (some source)
      → get_node g.session org_id payload.target_node_id ≡ some (some target)
      → find_upstream_ai_systems edge_added org_id payload.source_node_id none ≡ some keys
      → (g' : Governance) × (create_manual_edge_endpoint g now org_id user_id payload
          ≡ some (g', edge_created (manual_edge g.session org_id user_id payload) keys))
        × (g'.session ≡ edge_added)
        × (g'.events ≡ g.events ++ map (manual_event now org_id) keys)
  unfolding create_manual_edge_endpoint add_edge_from add_edge_to add_edge create_manual_edge
      write_audit_log
  endpoint_returns source target keys found found' upstream = (
    record {
      session = edge_added;
      limiter = g.limiter;
      events = foldl (emit_for now org_id) g.events keys;
      audit_log =
          g.audit_log
          ++ record {
            org_id = org_id;
            actor_id = user_id;
            event_type = codes "governance_graph.manual_edge_added";
            payload =
                of_edge g.session.next_id payload.source_node_id payload.target_node_id
                  payload.edge_type;
          }
            ∷ [];
    },
    rw (found, found', upstream) refl,
    refl,
    events_added now org_id g.events keys,
  )

-- Let node ids be unique, let active edges join nodes of their own organisation, and let both nodes of
-- the request be found. Then the endpoint answers with the new edge and some ids; each id has one
-- change event more; active edges still join nodes of their own organisation; and from a system
-- that is not archived and whose id is not among these, core derives the same obligations and the
-- same controls as before.
pub create_manual_edge_endpoint_complete :
    (g : Governance) (now org_id user_id : ℕ) (payload : ManualEdgeCreateRequest)
    (source target n : GovernanceGraphNode)
    → UniqueIds g.session
    → EdgesWithinOrg g.session
    → get_node g.session org_id payload.source_node_id ≡ some (some source)
    → get_node g.session org_id payload.target_node_id ≡ some (some target)
    → OrgNode g.session org_id n
    → n.node_type ≡ node_ai_system
    → (g' : Governance) × (keys : List Text) × (create_manual_edge_endpoint g now org_id user_id
          payload
        ≡ some (g', edge_created (manual_edge g.session org_id user_id payload) keys))
      × (g'.events ≡ g.events ++ map (manual_event now org_id) keys)
      × EdgesWithinOrg g'.session
      × (Memᴰ n.node_key keys
          ⊎ ((r : ReferenceDerived) × (r' : ReferenceDerived) × (derive_obligations_reference
                  g.session n.id resolve_max_traversal_depth
                ≡ some r)
              × (derive_obligations_reference g'.session n.id resolve_max_traversal_depth ≡ some r')
              × SameMembers r.derived_obligations r'.derived_obligations
              × SameMembers r.derived_controls r'.derived_controls))
unfolding depth_or_default
create_manual_edge_endpoint_complete g now org_id user_id payload source target n unique within
      found found' row typed =
    let edge = manual_edge g.session org_id user_id payload in
    let after = edge_added g now org_id user_id payload in
    let (keys, upstream, exact) =
      find_upstream_ai_systems-exact after org_id payload.source_node_id none unique in
    let (g', returns, same, events) =
      endpoint_returns g now org_id user_id payload source target keys found found' upstream in
    let within' =
      with_edge-EdgesWithinOrg g.session org_id edge (suc g.session.next_id) within
        (get_node-InOrg g.session org_id payload.source_node_id source found)
        (get_node-InOrg g.session org_id payload.target_node_id target found') in
    (
      g',
      keys,
      returns,
      events,
      rw same within',
      elim (Bool-cases (contains n.node_key keys)) [
        | inl told ↦ inl ((contains_iff n.node_key keys).0 told)
        | inr untold ↦ inr (
            rw same (
              same_derivation g.session org_id edge (suc g.session.next_id) n
                resolve_max_traversal_depth unique within' row typed
                (λ (m, walk, le). cc (
                  untold,
                  (contains_iff n.node_key keys).1
                      ((exact n.node_key).1 (n, row, typed, refl, (m, walk, le))),
                ))))
      ],
    )
