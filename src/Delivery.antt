-- ===== src/Delivery.antt =====
-- From the satellite to core: the JSON of src/p2_satellite/ingest_client.py as
-- core-side-patch/routers/patent_ingest_p2.py reads it.
pub mod View
pub mod Received
pub mod Mirrored
pub mod Accepted
pub mod Reported
pub mod Validated
pub mod Exported
pub mod Complete
use p2_ai_knowledge_graph_fo.Base.{ℕ, List, [], ◌∷◌, map, Option, none, some, Text, ◌>>=◌}
use p2_ai_knowledge_graph_fo.Tables.Upsert.{NodeStructureItem, EdgeStructureItem, Counts}
use p2_ai_knowledge_graph_fo.Ingest.{Core, DerivationRequest, post_graph_structure}
use p2_ai_knowledge_graph_fo.GraphBuilder.Structure.{NodeStructure, EdgeStructure, Structure}
use p2_ai_knowledge_graph_fo.IngestClient.{PushedDerivation}

-- The satellite sends neither properties nor weights: the defaults of the models.
unfoldable pub received_node : NodeStructure → NodeStructureItem
received_node n = record { node_type = n.node_type; node_key = n.node_key; properties = [] }

-- `none`: an edge without a type is no `str`, and the request is answered with 422.
unfoldable pub received_edge : EdgeStructure → Option EdgeStructureItem
received_edge e = do
  edge_type ← e.edge_type
  some (record {
    source_node_type = e.source_node_type;
    source_node_key = e.source_node_key;
    target_node_type = e.target_node_type;
    target_node_key = e.target_node_key;
    edge_type = edge_type;
    is_active = e.is_active;
    weight = 1;
    properties = [];
  })

unfoldable pub received_edges : List EdgeStructure → Option (List EdgeStructureItem)
received_edges [] = some []
received_edges (e ∷ edges) = do
  item ← received_edge e
  items ← received_edges edges
  some (item ∷ items)

-- The request for a structure, past authentication and the rate limit; `none` if it is rejected, or if a
-- query of one row finds several.
unfoldable pub receive_structure : Text → Structure → ℕ → ℕ → Core → Option (Core × Counts)
receive_structure structure_hash s org_id user_id core = do
  edges ← received_edges s.edges
  post_graph_structure structure_hash (map received_node s.nodes) edges org_id user_id core

unfoldable pub received_derivation : PushedDerivation → DerivationRequest
received_derivation p = record {
  ai_system_id = p.derivation.ai_system_id;
  derived_obligations = p.derivation.derived_obligations;
  derived_controls = p.derivation.derived_controls;
  graph_path = some p.derivation.graph_path;
  methodology_version = p.derivation.methodology_version;
  trigger_reason = p.trigger_reason;
  derivation_hash = p.derivation_hash;
}
