-- ===== src/Delivery/Validated.antt =====
-- src/p2_satellite and core-side-patch from end to end: the graph is pushed, then what was derived from
-- it, and core validates it.
use p2_ai_knowledge_graph_fo.Base.{
  ℕ, ◌≡◌, refl, subst, true, List, [], ◌∷◌, ◌++◌, map, codes, none, some, Text, Memᴰ, arith, nat_eq,
  list_eq,
}
use p2_ai_knowledge_graph_fo.Schema.{split_node_id, node_ai_system}
use p2_ai_knowledge_graph_fo.Traversal.{DiGraph, Derivation, Settings, derive_obligations}
use p2_ai_knowledge_graph_fo.Reference.{
  ReferenceDerived, node_lookup, derive_obligations_pure_python,
}
use p2_ai_knowledge_graph_fo.Agreement.{Mirrors, satellite_validated}
use p2_ai_knowledge_graph_fo.Tables.Upsert.{Counts, EdgeStructureItem}
use p2_ai_knowledge_graph_fo.Tables.Upsert.Nodes.{NodesUnique, IsStored}
use p2_ai_knowledge_graph_fo.Tables.Upsert.Edges.{EdgesUnique}
use p2_ai_knowledge_graph_fo.Tables.Upsert.Snapshot.{IsWithin, upsert_graph_structure-exact}
use p2_ai_knowledge_graph_fo.Ingest.{
  Core, recorded, validated, node_entries, edge_entries, submitted, reference_ids, store_derivation,
  store_derivation, derive_obligations_reference, post_graph_structure, process_one_derivation,
}
use p2_ai_knowledge_graph_fo.Ingest.Persisted.{IsPersisted, store_derivation-IsPersisted}
use p2_ai_knowledge_graph_fo.GraphBuilder.{Networkx}
use p2_ai_knowledge_graph_fo.GraphBuilder.Structure.{serialize_graph_structure}
use p2_ai_knowledge_graph_fo.IngestClient
use p2_ai_knowledge_graph_fo.IngestClient.{pushed}
use p2_ai_knowledge_graph_fo.Delivery.{
  received_node, received_edges, receive_structure, received_derivation,
}
use p2_ai_knowledge_graph_fo.Delivery.View.{IsGraphOf, IsCurrent, Stands}
use p2_ai_knowledge_graph_fo.Delivery.Received.{mem-read_nodes, read_graph_edges}
use p2_ai_knowledge_graph_fo.Delivery.Mirrored
use p2_ai_knowledge_graph_fo.Delivery.Accepted.{resolve_stored, process-agreeing}
use p2_ai_knowledge_graph_fo.Delivery.Reported.{
  system-NotTerminal, ai_system_id-derive_obligations, none_bad,
}

module _ {G : Type 0} (nx : Networkx G) (graph : G) (g : DiGraph)
    (of : IsGraphOf g (nx.nodes graph) (nx.edges graph)) where
  -- What is pushed is received, and stands for the graph.
  received :
      (items : List EdgeStructureItem) × (received_edges (serialize_graph_structure nx graph).edges
        ≡ some items)
      × Stands
          (nx.nodes graph)
          (nx.edges graph)
          (map received_node (serialize_graph_structure nx graph).nodes)
          items
      × ((item : EdgeStructureItem)
          → Memᴰ item items
          → IsWithin (map received_node (serialize_graph_structure nx graph).nodes) item)
  received =
      let (items, all, of_item, of_edge) = read_graph_edges nx graph of.made in
      (
        items,
        all,
        record {
          node_keys = mem-read_nodes nx graph;
          of_item = λ item m.
              let (e, in_edges, (source, target, _)) = of_item item m in
              (e, in_edges, source, target);
          of_edge = λ e m.
              let (item, in_items, (source, target, _)) = of_edge e m in
              (item, in_items, source, target);
        },
        λ item m.
            let (e, in_edges, (source, target, on)) = of_item item m in
            let (from, to) = of.ends e in_edges in
            (
              on,
              (mem-read_nodes nx graph _).1 (e.0, from, source),
              (mem-read_nodes nx graph _).1 (e.1, to, target),
            ),
      )

  -- Core accepts what is derived from a graph that its rows mirror.
  accepted :
      (settings : Settings) (client : IngestClient.Settings) (trigger_reason : Text)
      (org_id user_id : ℕ) (core : Core) (row : Text → ℕ) (s : Text)
      → NodesUnique core.session
      → Mirrors g (node_entries core.session) (edge_entries core.session) row
      → ((v : Text)
          → Memᴰ v (nx.nodes graph)
          → IsStored org_id core.session (split_node_id v) (row v))
      → Memᴰ s (nx.nodes graph)
      → (split_node_id s).0 ≡ node_ai_system
      → settings.max_traversal_depth ≡ 6
      → (d : Derivation) × (core' : Core) × (i : ℕ) × (r : ReferenceDerived) × (derive_obligations
            settings g s none
          ≡ some d)
        × (process_one_derivation
              (received_derivation (pushed client trigger_reason d))
              org_id
              user_id
              core
            ≡ some (core', recorded validated i r))
        × IsPersisted
            (received_derivation (pushed client trigger_reason d))
            org_id
            user_id
            core
            core'
            validated
            i
  unfolding derive_obligations_reference received_derivation pushed submitted reference_ids
  accepted settings client trigger_reason org_id user_id core row s unique mirrors stored_at at
        typed six =
      let (t, key) = split_node_id s in
      let nodes = node_entries core.session in
      let edges = edge_entries core.session in
      let plain =
        system-NotTerminal (node_lookup nodes (row s)) t key typed
          ((mirrors.same_data s t key).0 (of.attributes s at)) in
      let (d, r, derives, derives', agrees) =
        satellite_validated settings g nodes edges row s none mirrors ((of.present s).1 at) plain
          (omega (arith, six)) in
      let payload = received_derivation (pushed client trigger_reason d) in
      let named : d.ai_system_id ≡ key =
        ai_system_id-derive_obligations settings g s none d derives in
      (
        d,
        (store_derivation payload org_id user_id core r true).0,
        core.session.next_id,
        r,
        derives,
        process-agreeing payload org_id user_id core (row s) r
            (none_bad nx graph g of org_id core.session row stored_at settings s d derives
              (submitted payload) refl refl)
            (resolve_stored core.session org_id d.ai_system_id (row s) unique (
              subst (λ k. IsStored org_id core.session k (row s)) (cc (typed, named))
                (stored_at s at)))
            (subst (λ depth. derive_obligations_pure_python nodes edges (row s) depth ≡ some r) six
              derives')
            agrees,
        store_derivation-IsPersisted payload org_id user_id core r true,
      )

  module _ (org_id user_id : ℕ) (core : Core) (unique : NodesUnique core.session)
      (unique' : EdgesUnique core.session)
      (current : IsCurrent org_id core.session (nx.edges graph)) where
    -- The structure is stored, and core's rows mirror the graph.
    structure_stored :
        (structure_hash : Text)
        → (core' : Core) × (counts : Counts) × (row : Text → ℕ) × (receive_structure structure_hash
              (serialize_graph_structure nx graph)
              org_id
              user_id
              core
            ≡ some (core', counts))
          × NodesUnique core'.session
          × Mirrors g (node_entries core'.session) (edge_entries core'.session) row
          × ((v : Text)
              → Memᴰ v (nx.nodes graph)
              → IsStored org_id core'.session (split_node_id v) (row v))
    unfolding receive_structure post_graph_structure
    structure_stored structure_hash =
        let (items, all, stands, within) = received in
        let nodes = map received_node (serialize_graph_structure nx graph).nodes in
        let (after, counts, ends, stored) =
          upsert_graph_structure-exact core.session org_id nodes items unique unique' within in
        (
          record core {
            session = after;
            audit_log =
                core.audit_log
                ++ (org_id, user_id, codes "governance_graph.structure_ingest", structure_hash)
                  ∷ [];
          },
          counts,
          Mirrored.row g (nx.nodes graph) (nx.edges graph) of org_id core.session after nodes items
              stands unique' current stored,
          rw (all, ends) refl,
          stored.nodes_unique,
          Mirrored.pushed-Mirrors g (nx.nodes graph) (nx.edges graph) of org_id core.session after
              nodes items stands unique' current stored,
          Mirrored.stored_at g (nx.nodes graph) (nx.edges graph) of org_id core.session after nodes
              items stands unique' current stored,
        )

-- Let the walk read the graph that networkx holds, let ids and keys of core's tables be unique and given
-- out, and let their active rows out of the organisation's nodes be edges of the graph, as they are when it has no
-- nodes. With the depth bound 6 on both sides, core stores the graph's structure when it is pushed, and
-- then stores as validated, in one new row, what the satellite derives from any system of the graph.
pub pushed_derivation_validated :
    {G : Type 0} (nx : Networkx G) (graph : G) (g : DiGraph) (settings : Settings)
    (client : IngestClient.Settings) (trigger_reason structure_hash : Text) (org_id user_id : ℕ)
    (core : Core) (s : Text)
    → IsGraphOf g (nx.nodes graph) (nx.edges graph)
    → NodesUnique core.session
    → EdgesUnique core.session
    → IsCurrent org_id core.session (nx.edges graph)
    → Memᴰ s (nx.nodes graph)
    → (split_node_id s).0 ≡ node_ai_system
    → settings.max_traversal_depth ≡ 6
    → (core' : Core) × (counts : Counts) × (d : Derivation) × (core'' : Core) × (i : ℕ)
      × (r : ReferenceDerived) × (receive_structure structure_hash
            (serialize_graph_structure nx graph)
            org_id
            user_id
            core
          ≡ some (core', counts))
      × (derive_obligations settings g s none ≡ some d)
      × (process_one_derivation
            (received_derivation (pushed client trigger_reason d))
            org_id
            user_id
            core'
          ≡ some (core'', recorded validated i r))
      × IsPersisted
          (received_derivation (pushed client trigger_reason d))
          org_id
          user_id
          core'
          core''
          validated
          i
pushed_derivation_validated nx graph g settings client trigger_reason structure_hash org_id user_id
      core s of unique unique' current at typed six =
    let (core', counts, row, stored, unique'', mirrors, stored_at) =
      structure_stored nx graph g of org_id user_id core unique unique' current structure_hash in
    let (d, core'', i, r, derives, accepts, persists) =
      accepted nx graph g of settings client trigger_reason org_id user_id core' row s unique''
        mirrors stored_at at typed six in
    (core', counts, d, core'', i, r, stored, derives, accepts, persists)
