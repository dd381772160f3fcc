-- ===== src/Delivery/Exported.antt =====
-- src/p2_satellite and core-side-patch from the exports on: the graph is built and pushed, then what was
-- derived from it, and core validates it.
use p2_ai_knowledge_graph_fo.Base.{
  ℕ, ◌≡◌, refl, sym, ap, ◌∙◌, subst, some, none, some-injective, Text, Memᴰ, list_eq, nat_eq,
  contains, list_beq,
}
use p2_ai_knowledge_graph_fo.Schema.{node_ai_system}
use p2_ai_knowledge_graph_fo.Traversal.{EdgeData, Derivation, Settings, derive_obligations}
use p2_ai_knowledge_graph_fo.Reference.{ReferenceDerived}
use p2_ai_knowledge_graph_fo.Tables.{Session, GovernanceGraphNode}
use p2_ai_knowledge_graph_fo.Tables.Upsert.{Counts}
use p2_ai_knowledge_graph_fo.Tables.Upsert.Nodes.{NodesUnique}
use p2_ai_knowledge_graph_fo.Tables.Upsert.Edges.{EdgesUnique, ActiveRow}
use p2_ai_knowledge_graph_fo.Ingest.{Core, recorded, validated, process_one_derivation}
use p2_ai_knowledge_graph_fo.Ingest.Persisted.{IsPersisted}
use p2_ai_knowledge_graph_fo.GraphBuilder.{
  Networkx, Exports, AiSystemItem, build_graph, active_edge, walked,
}
use p2_ai_knowledge_graph_fo.GraphBuilder.Calls.{Exported}
use p2_ai_knowledge_graph_fo.GraphBuilder.Exact.{Exported-Valid}
use p2_ai_knowledge_graph_fo.GraphBuilder.Perform.{id_of, split-id_of}
use p2_ai_knowledge_graph_fo.GraphBuilder.Built.{IsExact, build_graph-exact}
use p2_ai_knowledge_graph_fo.GraphBuilder.Whole.{IsWhole, build_graph-IsWhole}
use p2_ai_knowledge_graph_fo.GraphBuilder.Structure.{serialize_graph_structure}
use p2_ai_knowledge_graph_fo.IngestClient
use p2_ai_knowledge_graph_fo.IngestClient.{pushed}
use p2_ai_knowledge_graph_fo.Delivery.{receive_structure, received_derivation}
use p2_ai_knowledge_graph_fo.Delivery.View.{IsGraphOf, IsCurrent, HasRow}
use p2_ai_knowledge_graph_fo.Delivery.Validated.{pushed_derivation_validated}

module _ {G : Type 0} (nx : Networkx G) where
  -- A whole graph is what its walk reads.
  pub walked-IsGraphOf :
      (g : G)
      → IsWhole nx g
      → ((e : Text × Text × EdgeData) → Memᴰ e (nx.edges g) → (t : Text) × (e.2 ≡ active_edge t))
      → IsGraphOf (walked nx g) (nx.nodes g) (nx.edges g)
  walked-IsGraphOf g whole made = record {
    present = nx.has_node_iff g;
    attributes = whole.attributes;
    absent = nx.node_data_absent g;
    out = nx.mem_out_edges g;
    ends = whole.ends;
    made = made;
    ids = λ u v m m' same. sym (whole.named u m) ∙ ap id_of same ∙ whole.named v m';
  }

-- The active rows out of the organisation's nodes are edges of the exports.
abbrev pub IsExported : ℕ → Session → Exports → Type 0
IsExported org_id session x =
    (i j : ℕ) (n : GovernanceGraphNode)
    → ActiveRow session i j
    → Memᴰ n session.nodes
    → n.id ≡ i
    → n.org_id ≡ org_id
    → (t : Text) × (a : Text × Text) × (b : Text × Text) × Exported x t a b
      × HasRow org_id session a i
      × HasRow org_id session b j

module _ {G : Type 0} (nx : Networkx G) (x : Exports) (graph : G) (exact : IsExact nx x graph) where
  pub exported-made :
      (e : Text × Text × EdgeData) → Memᴰ e (nx.edges graph) → (t : Text) × (e.2 ≡ active_edge t)
  exported-made (u, v, d) m = let (t, a, b, _, _, _, eq) = (exact u v d).0 m in (t, eq)

  exported-IsCurrent :
      (org_id : ℕ) (session : Session)
      → IsExported org_id session x
      → IsCurrent org_id session (nx.edges graph)
  exported-IsCurrent org_id session exported i j n row m same same' =
      let (t, a, b, e, from, to) = exported i j n row m same same' in
      let (_, known, known', _) = Exported-Valid x e in
      (
        (id_of a, id_of b, active_edge t),
        (exact (id_of a) (id_of b) (active_edge t)).1 (t, a, b, e, refl, refl, refl),
        subst (λ key. HasRow org_id session key i) (sym (split-id_of a known)) from,
        subst (λ key. HasRow org_id session key j) (sym (split-id_of b known')) to,
      )

-- Let ids and keys of core's tables be unique, let the ids of rows and of edges' sources have been given
-- out, and let the active rows out of the organisation's nodes be edges of the exports, as they are
-- when it has no nodes yet. With the depth bound 6 on both
-- sides: the graph of the exports is built, core stores its structure when it is pushed, and then
-- stores what the satellite derives from any system of the exports: one new result row holds it, with
-- the status validated, which the answer and one new entry of the audit log also give.
pub exported_system_validated :
    {G : Type 0} (nx : Networkx G) (x : Exports) (settings : Settings)
    (client : IngestClient.Settings) (trigger_reason structure_hash : Text) (org_id user_id : ℕ)
    (core : Core) (system : AiSystemItem)
    → NodesUnique core.session
    → EdgesUnique core.session
    → IsExported org_id core.session x
    → Memᴰ system x.ai_systems
    → settings.max_traversal_depth ≡ 6
    → (graph : G) × (core' : Core) × (counts : Counts) × (d : Derivation) × (core'' : Core)
      × (i : ℕ) × (r : ReferenceDerived) × (build_graph nx x ≡ some graph)
      × (receive_structure structure_hash (serialize_graph_structure nx graph) org_id user_id core
          ≡ some (core', counts))
      × (derive_obligations settings (walked nx graph) (id_of (node_ai_system, system.id)) none
          ≡ some d)
      × (process_one_derivation
            (received_derivation (pushed client trigger_reason d))
            org_id
            user_id
            core'
          ≡ some (core'', recorded validated i r))
      × IsPersisted
          (received_derivation (pushed client trigger_reason d))
          org_id
          user_id
          core'
          core''
          validated
          i
unfolding contains list_beq
exported_system_validated nx x settings client trigger_reason structure_hash org_id user_id core
      system unique unique' exported at six =
    let (graph, builds, whole, systems) = build_graph-IsWhole nx x in
    let (graph', builds', exact') = build_graph-exact nx x in
    let exact : IsExact nx x graph =
      subst (IsExact nx x) (some-injective _ _ (sym builds' ∙ builds)) exact' in
    let (core', counts, d, core'', i, r, stored, derives, accepts, persists) =
      pushed_derivation_validated nx graph (walked nx graph) settings client trigger_reason
        structure_hash org_id user_id core (id_of (node_ai_system, system.id))
        (walked-IsGraphOf nx graph whole (exported-made nx x graph exact)) unique unique'
        (exported-IsCurrent nx x graph exact org_id core.session exported) (systems system at)
        (ap (λ (key : Text × Text). key.0) (split-id_of (node_ai_system, system.id) refl)) six in
    (graph, core', counts, d, core'', i, r, builds, stored, derives, accepts, persists)
