-- ===== src/Delivery/View.antt =====
-- src/p2_satellite and core-side-patch: one graph as networkx holds it, as the walk reads it, as it is
-- pushed, and as core's tables hold it.
use p2_ai_knowledge_graph_fo.Base.{ℕ, ◌≡◌, ◌↔◌, true, false, List, map, none, Text, Memᴰ}
use p2_ai_knowledge_graph_fo.Schema.{split_node_id}
use p2_ai_knowledge_graph_fo.Traversal.{EdgeData, DiGraph}
use p2_ai_knowledge_graph_fo.Traversal.Step.{HasType}
use p2_ai_knowledge_graph_fo.Tables.{Session, GovernanceGraphNode}
use p2_ai_knowledge_graph_fo.Tables.Upsert.{NodeStructureItem, EdgeStructureItem}
use p2_ai_knowledge_graph_fo.Tables.Upsert.Nodes.{identity, key_of}
use p2_ai_knowledge_graph_fo.Tables.Upsert.Edges.{ActiveRow}
use p2_ai_knowledge_graph_fo.Tables.Upsert.AllEdges.{source_key, target_key}
use p2_ai_knowledge_graph_fo.GraphBuilder.{active_edge}

-- The walk reads a graph with these nodes and these edges: each node has the type and the key of its id,
-- and no id is made twice.
pub record IsGraphOf (g : DiGraph) (nodes : List Text) (edges : List (Text × Text × EdgeData))
    : Type 0 where
  pub present : (v : Text) → (g.has_node v ≡ true) ↔ Memᴰ v nodes
  pub attributes : (v : Text) → Memᴰ v nodes → HasType g (split_node_id v).0 v (split_node_id v).1
  pub absent : (v : Text) → g.has_node v ≡ false → g.node_data v ≡ none
  pub out : (u v : Text) (d : EdgeData) → Memᴰ (v, d) (g.out_edges u) ↔ Memᴰ (u, v, d) edges
  pub ends : (e : Text × Text × EdgeData) → Memᴰ e edges → Memᴰ e.0 nodes × Memᴰ e.1 nodes
  pub made : (e : Text × Text × EdgeData) → Memᴰ e edges → (t : Text) × (e.2 ≡ active_edge t)
  pub ids : (u v : Text) → Memᴰ u nodes → Memᴰ v nodes → split_node_id u ≡ split_node_id v → u ≡ v

-- A row of the organisation has this id and this key.
abbrev pub HasRow : ℕ → Session → Text × Text → ℕ → Type 0
HasRow org_id session key x =
    (n : GovernanceGraphNode) × Memᴰ n session.nodes × (identity n ≡ (x, org_id, key.0, key.1))

-- The active rows out of the organisation's nodes are edges of the graph.
abbrev pub IsCurrent : ℕ → Session → List (Text × Text × EdgeData) → Type 0
IsCurrent org_id session edges =
    (x y : ℕ) (n : GovernanceGraphNode)
    → ActiveRow session x y
    → Memᴰ n session.nodes
    → n.id ≡ x
    → n.org_id ≡ org_id
    → (e : Text × Text × EdgeData) × Memᴰ e edges
      × HasRow org_id session (split_node_id e.0) x
      × HasRow org_id session (split_node_id e.1) y

-- The items stand for these nodes and edges.
pub record Stands (nodes : List Text) (edges : List (Text × Text × EdgeData))
    (node_items : List NodeStructureItem) (edge_items : List EdgeStructureItem) : Type 0 where
  pub node_keys :
      (key : Text × Text)
      → Memᴰ key (map key_of node_items) ↔ ((v : Text) × Memᴰ v nodes × (key ≡ split_node_id v))
  pub of_item :
      (item : EdgeStructureItem)
      → Memᴰ item edge_items
      → (e : Text × Text × EdgeData) × Memᴰ e edges
        × (source_key item ≡ split_node_id e.0)
        × (target_key item ≡ split_node_id e.1)
  pub of_edge :
      (e : Text × Text × EdgeData)
      → Memᴰ e edges
      → (item : EdgeStructureItem) × Memᴰ item edge_items
        × (source_key item ≡ split_node_id e.0)
        × (target_key item ≡ split_node_id e.1)
