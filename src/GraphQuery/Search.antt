-- ===== src/GraphQuery/Search.antt =====
-- core-side-patch/graph_query.py: the graph of one organisation, get_subgraph and
-- find_upstream_ai_systems. A set is iterated in the order of insertion.
use p2_ai_knowledge_graph_fo.Base.{
  ℕ, not, ◌&&◌, List, [], ◌∷◌, Option, none, some, Text, Dict, lookup, put, dict_of, group_of,
  grouped, keep_if, map, length, add, sorted, text_le, ◌==◌, list_eq, nat_eq, pair_eq, ◌>>=◌,
}
use p2_ai_knowledge_graph_fo.Schema.{node_ai_system}
use p2_ai_knowledge_graph_fo.Tables.{
  Properties, Session, GovernanceGraphNode, GovernanceGraphEdge, resolve_ai_system_node_id,
}
use p2_ai_knowledge_graph_fo.Ingest.{resolve_max_traversal_depth}
use p2_ai_knowledge_graph_fo.GraphQuery.{node_to_dict}
use p2_ai_knowledge_graph_fo.BreadthFirst.{Searching, search}

unfoldable pub org_nodes : Session → ℕ → List GovernanceGraphNode
org_nodes session org_id = keep_if (λ n. (n.org_id == org_id) && not n.archived) session.nodes

unfoldable pub org_edges : Session → ℕ → List GovernanceGraphEdge
org_edges session org_id = keep_if (λ e. (e.org_id == org_id) && e.is_active) session.edges

pub record OrgGraph : Type 0 where
  pub nodes_by_id : Dict ℕ GovernanceGraphNode
  pub outgoing : Dict ℕ (List GovernanceGraphEdge)
  pub incoming : Dict ℕ (List GovernanceGraphEdge)

unfoldable pub load_org_graph : Session → ℕ → OrgGraph
load_org_graph session org_id = record {
  nodes_by_id = dict_of (λ n. n.id) (org_nodes session org_id);
  outgoing = grouped (λ e. e.source_node_id) (org_edges session org_id);
  incoming = grouped (λ e. e.target_node_id) (org_edges session org_id);
}

-- `if max_depth is None`
unfoldable pub depth_or_default : Option ℕ → ℕ
depth_or_default none = resolve_max_traversal_depth
depth_or_default (some d) = d

-- source, target, type
abbrev pub EdgeDict : Type 0
EdgeDict = ℕ × (ℕ × Text)

abbrev pub NodeDict : Type 0
NodeDict = ℕ × Text × Text × Properties

unfoldable pub edge_to_dict : GovernanceGraphEdge → EdgeDict
edge_to_dict e = (e.source_node_id, (e.target_node_id, e.edge_type))

-- `visited_edges[(source, target, type)] = edge`
unfoldable pub visit_edge :
    GovernanceGraphEdge
    → List (EdgeDict × GovernanceGraphEdge)
    → List (EdgeDict × GovernanceGraphEdge)
visit_edge edge visited_edges =
    put (edge.source_node_id, (edge.target_node_id, edge.edge_type)) edge visited_edges

-- The loop of `get_subgraph`; `none` would mean that the fuel ran out.
unfoldable pub search_forward :
    Session → ℕ → ℕ → ℕ → Option (Searching (List (EdgeDict × GovernanceGraphEdge)))
search_forward session org_id node_id max_depth =
    search (λ id. group_of id (load_org_graph session org_id).outgoing) (λ e. e.target_node_id)
      visit_edge (λ id visited_edges. visited_edges) max_depth (length (org_edges session org_id))
      node_id []

unfoldable pub if_found :
    Option GovernanceGraphNode → List GovernanceGraphNode → List GovernanceGraphNode
if_found none rest = rest
if_found (some n) rest = n ∷ rest

-- `[... for nid in ids if nid in nodes_by_id]`
unfoldable pub nodes_of : Dict ℕ GovernanceGraphNode → List ℕ → List GovernanceGraphNode
nodes_of nodes_by_id [] = []
nodes_of nodes_by_id (id ∷ ids) = if_found (lookup id nodes_by_id) (nodes_of nodes_by_id ids)

-- `UnknownAiSystemError`, or the nodes and the edges.
pub data Subgraph : Type 0 where
  unknown_ai_system : Subgraph
  subgraph : List NodeDict → List EdgeDict → Subgraph

unfoldable pub subgraph_from : Session → ℕ → ℕ → Option ℕ → Option Subgraph
subgraph_from session org_id max_depth none = some unknown_ai_system
subgraph_from session org_id max_depth (some node_id) = do
  t ← search_forward session org_id node_id max_depth
  some (
      subgraph (map node_to_dict (nodes_of (load_org_graph session org_id).nodes_by_id t.seen))
        (map (λ entry. edge_to_dict entry.1) t.noted))

unfoldable pub get_subgraph : Session → ℕ → Text → Option ℕ → Option Subgraph
get_subgraph session org_id ai_system_id max_depth = do
  node ← resolve_ai_system_node_id session org_id ai_system_id
  subgraph_from session org_id (depth_or_default max_depth) node

-- The loop of `find_upstream_ai_systems`, which notes `ancestor_ids`.
unfoldable pub search_backward : Session → ℕ → ℕ → ℕ → Option (Searching (List ℕ))
search_backward session org_id node_id max_depth =
    search (λ id. group_of id (load_org_graph session org_id).incoming) (λ e. e.source_node_id)
      (λ e ancestor_ids. ancestor_ids) add max_depth (length (org_edges session org_id)) node_id []

unfoldable pub ai_system_keys : List GovernanceGraphNode → List Text
ai_system_keys nodes = map (λ n. n.node_key) (keep_if (λ n. n.node_type == node_ai_system) nodes)

unfoldable pub find_upstream_ai_systems : Session → ℕ → ℕ → Option ℕ → Option (List Text)
find_upstream_ai_systems session org_id node_id max_depth = do
  t ← search_backward session org_id node_id (depth_or_default max_depth)
  some (
      sorted text_le (
        ai_system_keys
          (nodes_of (load_org_graph session org_id).nodes_by_id (add node_id t.noted))))
