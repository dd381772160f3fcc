-- ===== src/GraphBuilder.antt =====
-- src/p2_satellite/graph_builder.py: the graph of core's exports. networkx's DiGraph is an interface of
-- the calls that the builder makes of it.
pub mod Calls
pub mod Exact
pub mod Perform
pub mod Built
pub mod Ready
pub mod Whole
pub mod Layered
pub mod Structure
pub mod Fetch
use p2_ai_knowledge_graph_fo.Base.{
  ℕ, Bool, true, false, List, [], ◌∷◌, ◌++◌, map, Option, none, some, Text, Dict, Memᴰ, Distinct,
  ◌≡◌, ◌≤◌, ◌↔◌, ◌⊎◌, if◌then◌else◌, ◌>>=◌, length, sorted, text_le, list_eq, nat_eq, ◌==◌, codes,
}
use p2_ai_knowledge_graph_fo.Schema.{
  node_id, split_node_id, validate_edge_type, node_ai_system, node_regulation, node_jurisdiction,
  node_data_category, node_control_type, node_obligation, node_risk_tier, edge_system_uses,
  edge_system_deploys_in, edge_data_triggers, edge_jurisdiction_has, edge_regulation_requires,
  edge_obligation_needs, edge_system_classified_as, edge_risk_tier_adds,
}
use p2_ai_knowledge_graph_fo.Traversal.{EdgeData, NodeData, DiGraph, edge_is_active}

-- The parsed exports.
pub record ObligationItem : Type 0 where
  pub key : Text
  pub needs_controls : List Text

pub record RegulationItem : Type 0 where
  pub key : Text
  pub triggered_by_data_categories : List Text
  pub requires_obligations : List ObligationItem

pub record JurisdictionItem : Type 0 where
  pub key : Text
  pub regulations : List Text

pub record AiSystemItem : Type 0 where
  pub id : Text
  pub data_categories : List Text
  pub geographic_scope : List Text
  pub risk_tier : Text

pub record Exports : Type 0 where
  pub ai_systems : List AiSystemItem
  pub regulations : List RegulationItem
  pub risk_tier_obligations : Dict Text (List ObligationItem)
  pub jurisdictions : List JurisdictionItem

abbrev pub active_edge : Text → EdgeData
active_edge edge_type = record { edge_type = some edge_type; is_active = some true }

-- What the satellite calls of networkx, with what it documents: a node is there once, a new edge between
-- two nodes replaces the one that was there, and adding an edge leaves nodes that are there as they are.
-- `node_data` is `none` for what is no node, and for a node without the two attributes.
pub record Networkx (G : Type 0) : Type 0 where
  pub empty : G
  pub has_node : G → Text → Bool
  pub add_node : Text → NodeData → G → G
  pub add_edge : Text → Text → EdgeData → G → G
  pub nodes : G → List Text
  pub edges : G → List (Text × Text × EdgeData)
  pub node_data : G → Text → Option NodeData
  pub out_edges : G → Text → List (Text × EdgeData)
  pub number_of_edges : G → ℕ
  pub nodes-empty : nodes empty ≡ []
  pub edges-empty : edges empty ≡ []
  pub has_node_iff : (g : G) (n : Text) → (has_node g n ≡ true) ↔ Memᴰ n (nodes g)
  pub mem_nodes-add_node :
      (n : Text) (d : NodeData) (g : G) (v : Text)
      → Memᴰ v (nodes (add_node n d g)) ↔ (Memᴰ v (nodes g) ⊎ (v ≡ n))
  pub mem_nodes-add_edge :
      (s t : Text) (d : EdgeData) (g : G) (v : Text)
      → Memᴰ v (nodes (add_edge s t d g)) ↔ (Memᴰ v (nodes g) ⊎ ((v ≡ s) ⊎ (v ≡ t)))
  pub mem_edges-add_node :
      (n : Text) (d : NodeData) (g : G) (e : Text × Text × EdgeData)
      → Memᴰ e (edges (add_node n d g)) ↔ Memᴰ e (edges g)
  -- An edge that is there gets both attributes anew.
  pub mem_edges-add_edge :
      (s t edge_type : Text) (g : G) (u v : Text) (d : EdgeData)
      → Memᴰ (u, v, d) (edges (add_edge s t (active_edge edge_type) g)) ↔ (
          (Memᴰ (u, v, d) (edges g) × (¬ ((u ≡ s) × (v ≡ t))))
          ⊎ ((u ≡ s) × (v ≡ t) × (d ≡ active_edge edge_type)))
  pub node_data_absent : (g : G) (v : Text) → has_node g v ≡ false → node_data g v ≡ none
  pub node_data-add_node :
      (n : Text) (d : NodeData) (g : G) (v : Text)
      → node_data (add_node n d g) v ≡ (if n == v then some d else node_data g v)
  pub node_data-add_edge :
      (s t : Text) (d : EdgeData) (g : G) (v : Text)
      → has_node g s ≡ true
      → has_node g t ≡ true
      → node_data (add_edge s t d g) v ≡ node_data g v
  pub mem_out_edges :
      (g : G) (u v : Text) (d : EdgeData) → Memᴰ (v, d) (out_edges g u) ↔ Memᴰ (u, v, d) (edges g)
  pub length-out_edges-le : (g : G) (u : Text) → length (out_edges g u) ≤ number_of_edges g

-- A call of the local functions `add_node` and `add_edge`; the ids that `add_edge` takes are those of
-- the nodes' types and keys.
pub data Call : Type 0 where
  node : Text → Text → Call
  edge : Text → Text × Text → Text × Text → Call

module _ {A B : Type 0} where
  -- The calls of a `for` loop.
  unfoldable pub for_each : List A → (A → List B) → List B
  for_each [] body = []
  for_each (x ∷ xs) body = body x ++ for_each xs body

-- A node that `source` leads to.
unfoldable pub linked : Text → Text × Text → Text × Text → List Call
linked edge_type source (node_type, node_key) =
    node node_type node_key ∷ edge edge_type source (node_type, node_key) ∷ []

-- A node that leads to `target`.
unfoldable pub linked_from : Text → Text × Text → Text × Text → List Call
linked_from edge_type (node_type, node_key) target =
    node node_type node_key ∷ edge edge_type (node_type, node_key) target ∷ []

unfoldable pub calls_of_jurisdiction : JurisdictionItem → List Call
calls_of_jurisdiction j =
    node node_jurisdiction j.key
    ∷ for_each j.regulations (λ reg_key.
      linked edge_jurisdiction_has (node_jurisdiction, j.key) (node_regulation, reg_key))

-- An obligation and the controls that it needs, under what requires it.
unfoldable pub calls_of_obligation : Text → Text × Text → ObligationItem → List Call
calls_of_obligation edge_type source ob =
    linked edge_type source (node_obligation, ob.key)
    ++ for_each ob.needs_controls (λ ctrl_key.
      linked edge_obligation_needs (node_obligation, ob.key) (node_control_type, ctrl_key))

unfoldable pub calls_of_regulation : RegulationItem → List Call
calls_of_regulation reg =
    node node_regulation reg.key
    ∷ (for_each reg.triggered_by_data_categories (λ dc_key.
          linked_from edge_data_triggers (node_data_category, dc_key) (node_regulation, reg.key))
        ++ for_each reg.requires_obligations
            (calls_of_obligation edge_regulation_requires (node_regulation, reg.key)))

unfoldable pub calls_of_risk_tier : Text × List ObligationItem → List Call
calls_of_risk_tier (tier_key, obligations) =
    node node_risk_tier tier_key
    ∷ for_each obligations (calls_of_obligation edge_risk_tier_adds (node_risk_tier, tier_key))

unfoldable pub calls_of_ai_system : AiSystemItem → List Call
calls_of_ai_system sysd =
    node node_ai_system sysd.id
    ∷ (for_each sysd.data_categories
          (λ dc_key. linked edge_system_uses (node_ai_system, sysd.id) (node_data_category, dc_key))
        ++ for_each sysd.geographic_scope (λ geo.
          linked edge_system_deploys_in (node_ai_system, sysd.id) (node_jurisdiction, geo))
        ++ linked edge_system_classified_as (node_ai_system, sysd.id)
            (node_risk_tier, sysd.risk_tier))

-- The calls of `build_graph`, in their order.
unfoldable pub calls_of : Exports → List Call
calls_of x =
    for_each x.jurisdictions calls_of_jurisdiction
    ++ for_each x.regulations calls_of_regulation
    ++ for_each x.risk_tier_obligations calls_of_risk_tier
    ++ for_each x.ai_systems calls_of_ai_system

module _ {G : Type 0} (nx : Networkx G) where
  -- The bodies of `add_node` and `add_edge`; `none` is the `ValueError` of schema.py.
  unfoldable pub perform : G → Call → Option G
  perform g (node node_type node_key) = do
    nid ← node_id node_type node_key
    some (
        if nx.has_node g nid
        then g
        else nx.add_node nid (record { node_type = node_type; node_key = node_key }) g)
  perform g (edge edge_type source target) =
      if validate_edge_type edge_type
      then (node_id source.0 source.1 >>= λ source_id. node_id target.0 target.1 >>= λ target_id.
          some (nx.add_edge source_id target_id (active_edge edge_type) g))
      else none

  unfoldable pub perform_all : G → List Call → Option G
  perform_all g [] = some g
  perform_all g (c ∷ calls) = perform g c >>= λ g'. perform_all g' calls

  unfoldable pub build_graph : Exports → Option G
  build_graph x = perform_all nx.empty (calls_of x)

-- What `derive_obligations` reads of the graph that was built.
abbrev pub walked : {G : Type 0} → Networkx G → G → DiGraph
walked nx graph = record {
  has_node = nx.has_node graph;
  node_data = nx.node_data graph;
  out_edges = nx.out_edges graph;
  number_of_edges = nx.number_of_edges graph;
  out_edges_le = nx.length-out_edges-le graph;
}
