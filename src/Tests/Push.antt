-- ===== src/Tests/Push.antt =====
-- The theorems about the path of a graph from the exports to core's tables, at concrete inputs.
use mathlib.Core.List.Memᴰ
use p2_ai_knowledge_graph_fo.Base.{
  Text, ◌↔◌, ℕ, ◌≡◌, refl, ap, true, false, List, [], ◌∷◌, none, some, codes, Memᴰ, arith,
}
use p2_ai_knowledge_graph_fo.Schema.{node_ai_system, node_obligation}
use p2_ai_knowledge_graph_fo.Traversal.{Derivation, derive_obligations}
use p2_ai_knowledge_graph_fo.Traversal
use p2_ai_knowledge_graph_fo.Reference.{ReferenceDerived}
use p2_ai_knowledge_graph_fo.Tables.{Session, GovernanceGraphNode, GovernanceGraphEdge}
use p2_ai_knowledge_graph_fo.Tables.Upsert.{
  NodeStructureItem, EdgeStructureItem, Counts, upsert_graph_structure,
}
use p2_ai_knowledge_graph_fo.Tables.Upsert.Nodes.{NodesUnique}
use p2_ai_knowledge_graph_fo.Tables.Upsert.Edges.{EdgesUnique}
use p2_ai_knowledge_graph_fo.Tables.Upsert.Snapshot.{
  IsPushed, IsWithin, upsert_graph_structure-exact,
}
use p2_ai_knowledge_graph_fo.Ingest.{Core, recorded, validated, process_one_derivation}
use p2_ai_knowledge_graph_fo.Ingest.Persisted.{IsPersisted}
use p2_ai_knowledge_graph_fo.GraphBuilder.{AiSystemItem, build_graph, walked}
use p2_ai_knowledge_graph_fo.GraphBuilder.Perform.{id_of}
use p2_ai_knowledge_graph_fo.GraphBuilder.Whole.{IsWhole, build_graph-IsWhole}
use p2_ai_knowledge_graph_fo.GraphBuilder.Structure.{serialize_graph_structure}
use p2_ai_knowledge_graph_fo.IngestClient
use p2_ai_knowledge_graph_fo.IngestClient.{pushed}
use p2_ai_knowledge_graph_fo.Delivery.{receive_structure, received_derivation}
use p2_ai_knowledge_graph_fo.Delivery.Complete.{exported_derivation-exact}
use p2_ai_knowledge_graph_fo.GraphBuilder.Layered.{Documented, Joined, build_graph-Documented}
use p2_ai_knowledge_graph_fo.GraphBuilder.{active_edge}
use p2_ai_knowledge_graph_fo.Paths.{Walk}
use p2_ai_knowledge_graph_fo.Traversal.{EdgeData}
use p2_ai_knowledge_graph_fo.Schema.{split_node_id, node_control_type}
use p2_ai_knowledge_graph_fo.Delivery.Exported.{IsExported, exported_system_validated}
use p2_ai_knowledge_graph_fo.Tests.Library.{Lists, networkx}
use p2_ai_knowledge_graph_fo.Tests.Satellite.{exports}
use p2_ai_knowledge_graph_fo.Tests.Satellite as Satellite

build_graph-IsWhole_example :
    (g : Lists) × (build_graph networkx exports ≡ some g)
    × IsWhole networkx g
    × ((s : AiSystemItem) → Memᴰ s exports.ai_systems → Memᴰ (id_of (node_ai_system, s.id)) g.nodes)
build_graph-IsWhole_example = build_graph-IsWhole networkx exports

abbrev system_row : GovernanceGraphNode
system_row = record {
  id = 1;
  org_id = 7;
  node_type = node_ai_system;
  node_key = codes "1";
  properties = [];
  archived = true;
}

-- An edge of the system to itself, switched off.
abbrev loop_row : GovernanceGraphEdge
loop_row = record {
  id = 2;
  org_id = 7;
  source_node_id = 1;
  target_node_id = 1;
  edge_type = codes "risk_tier_adds";
  weight = 1;
  properties = [];
  is_active = false;
}

abbrev stored : Session
stored = record {
  nodes = system_row ∷ [];
  edges = loop_row ∷ [];
  results = [];
  links = [];
  next_id = 3;
}

stored-NodesUnique : NodesUnique stored
stored-NodesUnique = record {
  ids = (λ m. Memᴰ.not-nil m, tt);
  bounded = λ n m. rw (Memᴰ.eq_of_singleton m) (omega arith);
  keys = λ n k in_n in_k _ _ _. cc (Memᴰ.eq_of_singleton in_n, Memᴰ.eq_of_singleton in_k);
}

stored-EdgesUnique : EdgesUnique stored
stored-EdgesUnique = record {
  ids = (λ m. Memᴰ.not-nil m, tt);
  bounded = λ e m. rw (Memᴰ.eq_of_singleton m) (omega arith, omega arith);
  keys = λ e f in_e in_f _ _ _ _. cc (Memᴰ.eq_of_singleton in_e, Memᴰ.eq_of_singleton in_f);
}

abbrev pushed_nodes : List NodeStructureItem
pushed_nodes =
    record { node_type = node_ai_system; node_key = codes "1"; properties = [] }
    ∷ record { node_type = node_obligation; node_key = codes "o"; properties = [] }
    ∷ []

abbrev pushed_edge : EdgeStructureItem
pushed_edge = record {
  source_node_type = node_ai_system;
  source_node_key = codes "1";
  target_node_type = node_obligation;
  target_node_key = codes "o";
  edge_type = codes "risk_tier_adds";
  is_active = true;
  weight = 1;
  properties = [];
}

pushed_edge-IsWithin : (e : EdgeStructureItem) → Memᴰ e (pushed_edge ∷ []) → IsWithin pushed_nodes e
pushed_edge-IsWithin e m =
    rw (Memᴰ.eq_of_singleton m) (refl, Memᴰ.head refl, Memᴰ.tail (Memᴰ.head refl))

upsert_graph_structure-exact_example :
    (session' : Session) × (counts : Counts) × (upsert_graph_structure stored 7 pushed_nodes
        (pushed_edge ∷ [])
      ≡ some (session', counts))
    × IsPushed 7 stored session' pushed_nodes (pushed_edge ∷ [])
upsert_graph_structure-exact_example =
    upsert_graph_structure-exact stored 7 pushed_nodes (pushed_edge ∷ []) stored-NodesUnique
      stored-EdgesUnique pushed_edge-IsWithin

-- The tables hold rows of another organisation.
abbrev core : Core
core = record { session = stored; metrics = []; audit_log = [] }

no_rows-IsExported : IsExported 8 stored exports
no_rows-IsExported i j n row m _ of_org =
    absurd
      (omega (arith, ap (λ (k : GovernanceGraphNode). k.org_id) (Memᴰ.eq_of_singleton m), of_org))

abbrev settings : Traversal.Settings
settings = record { max_traversal_depth = 6; methodology_version = codes "v" }

abbrev client : IngestClient.Settings
client = Satellite.settings

abbrev system_of_exports : AiSystemItem
system_of_exports = record {
  id = codes "1";
  data_categories = codes "health" ∷ [];
  geographic_scope = codes "EU" ∷ [];
  risk_tier = codes "high";
}

exported_system_validated_example :
    (graph : Lists) × (core' : Core) × (counts : Counts) × (d : Derivation) × (core'' : Core)
    × (i : ℕ) × (r : ReferenceDerived) × (build_graph networkx exports ≡ some graph)
    × (receive_structure (codes "h") (serialize_graph_structure networkx graph) 8 2 core
        ≡ some (core', counts))
    × (derive_obligations settings (walked networkx graph) (id_of (node_ai_system, codes "1")) none
        ≡ some d)
    × (process_one_derivation (received_derivation (pushed client (codes "event") d)) 8 2 core'
        ≡ some (core'', recorded validated i r))
    × IsPersisted
        (received_derivation (pushed client (codes "event") d))
        8
        2
        core'
        core''
        validated
        i
exported_system_validated_example =
    exported_system_validated networkx exports settings client (codes "event") (codes "h") 8 2 core
      system_of_exports stored-NodesUnique stored-EdgesUnique no_rows-IsExported (Memᴰ.head refl)
      refl

build_graph-Documented_example :
    (g : Lists) × (build_graph networkx exports ≡ some g)
    × ((u v : Text) (d : EdgeData)
        → Memᴰ (u, v, d) g.edges
        → (t : Text) × (d ≡ active_edge t) × Documented t (split_node_id u).0 (split_node_id v).0)
build_graph-Documented_example = build_graph-Documented networkx exports

exported_derivation-exact_example :
    (graph : Lists) × (d : Derivation) × (build_graph networkx exports ≡ some graph)
    × (derive_obligations settings (walked networkx graph) (id_of (node_ai_system, codes "1")) none
        ≡ some d)
    × ((k : Text)
        → Memᴰ k d.derived_obligations
          ↔ ((n : ℕ) × Walk (Joined exports) (node_ai_system, codes "1") n (node_obligation, k)))
    × ((k : Text)
        → Memᴰ k d.derived_controls
          ↔ ((n : ℕ) × Walk (Joined exports) (node_ai_system, codes "1") n (node_control_type, k)))
exported_derivation-exact_example =
    exported_derivation-exact networkx exports settings system_of_exports (Memᴰ.head refl)
      (omega arith)
