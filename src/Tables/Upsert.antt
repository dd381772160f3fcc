-- ===== src/Tables/Upsert.antt =====
-- core-side-patch/models.py, `upsert_graph_structure`: the snapshot that the satellite pushes.
pub mod Repeated
pub mod Raises
pub mod Unique
pub mod Single
pub mod Nodes
pub mod Store
pub mod AllNodes
pub mod Edges
pub mod Link
pub mod AllEdges
pub mod Snapshot
use p2_ai_knowledge_graph_fo.Base.{
  ℕ, ◌+◌, suc, Bool, true, false, not, ◌&&◌, ◌||◌, List, [], ◌∷◌, ◌++◌, Option, none, some, Text,
  Dict, lookup, put, if◌then◌else◌, ◌==◌, list_eq, nat_eq, pair_eq, keep_if, map, ◌>>=◌,
}
use p2_ai_knowledge_graph_fo.Tables.{
  Properties, same_properties, GovernanceGraphNode, GovernanceGraphEdge, Session, one_or_none,
  has_natural_key, get_node_by_natural_key,
}

-- routers/patent_ingest_p2.py
pub record NodeStructureItem : Type 0 where
  pub node_type : Text
  pub node_key : Text
  pub properties : Properties

pub record EdgeStructureItem : Type 0 where
  pub source_node_type : Text
  pub source_node_key : Text
  pub target_node_type : Text
  pub target_node_key : Text
  pub edge_type : Text
  pub is_active : Bool
  pub weight : ℕ
  pub properties : Properties

pub record Counts : Type 0 where
  pub nodes_created : ℕ
  pub nodes_updated : ℕ
  pub edges_created : ℕ
  pub edges_updated : ℕ

-- The local variables of the function, with the session.
pub record Upserting : Type 0 where
  pub session : Session
  pub node_id_by_key : Dict (Text × Text) ℕ
  pub counts : Counts

unfoldable pub insert_node : ℕ → NodeStructureItem → Upserting → Upserting
insert_node org_id node u =
    let row : GovernanceGraphNode = record {
      id = u.session.next_id;
      org_id = org_id;
      node_type = node.node_type;
      node_key = node.node_key;
      properties = node.properties;
      archived = false;
    } in
    record {
      session = record (u.session) {
        nodes = u.session.nodes ++ row ∷ [];
        next_id = suc u.session.next_id;
      };
      node_id_by_key = put (node.node_type, node.node_key) row.id u.node_id_by_key;
      counts = record (u.counts) { nodes_created = u.counts.nodes_created + 1 };
    }

-- The row with the pushed properties, and no longer archived.
unfoldable pub update_node : ℕ → Properties → List GovernanceGraphNode → List GovernanceGraphNode
update_node id properties [] = []
update_node id properties (n ∷ nodes) =
    (if n.id == id
      then record n {
        properties = if same_properties n.properties properties then n.properties else properties;
        archived = false;
      }
      else n)
    ∷ update_node id properties nodes

unfoldable pub node_changed : GovernanceGraphNode → Properties → Bool
node_changed existing properties =
    not (same_properties existing.properties properties) || existing.archived

unfoldable pub refresh_node : NodeStructureItem → GovernanceGraphNode → Upserting → Upserting
refresh_node node existing u = record {
  session = record (u.session) { nodes = update_node existing.id node.properties u.session.nodes };
  node_id_by_key = put (node.node_type, node.node_key) existing.id u.node_id_by_key;
  counts =
      if node_changed existing node.properties
      then record (u.counts) { nodes_updated = u.counts.nodes_updated + 1 }
      else u.counts;
}

unfoldable pub write_node :
    ℕ → NodeStructureItem → Upserting → Option GovernanceGraphNode → Upserting
write_node org_id node u none = insert_node org_id node u
write_node org_id node u (some existing) = refresh_node node existing u

unfoldable pub upsert_node : ℕ → Upserting → NodeStructureItem → Option Upserting
upsert_node org_id u node = do
  existing ←
      one_or_none (keep_if (has_natural_key org_id node.node_type node.node_key) u.session.nodes)
  some (write_node org_id node u existing)

-- `_resolve_node_id`; a node found in the table is remembered.
unfoldable pub remember :
    Text × Text → Upserting → Option GovernanceGraphNode → Upserting × Option ℕ
remember key u none = (u, none)
remember key u (some existing) =
    (record u { node_id_by_key = put key existing.id u.node_id_by_key }, some existing.id)

unfoldable pub resolve_in_table :
    ℕ → Upserting → Text × Text → Option ℕ → Option (Upserting × Option ℕ)
resolve_in_table org_id u key (some id) = some (u, some id)
resolve_in_table org_id u key none = do
  existing ← get_node_by_natural_key u.session org_id key.0 key.1
  some (remember key u existing)

unfoldable pub resolve_node_id : ℕ → Upserting → Text × Text → Option (Upserting × Option ℕ)
resolve_node_id org_id u key = resolve_in_table org_id u key (lookup key u.node_id_by_key)

unfoldable pub has_edge_key : ℕ → ℕ → ℕ → Text → GovernanceGraphEdge → Bool
has_edge_key org_id source_id target_id edge_type e =
    (e.org_id == org_id)
    && (e.source_node_id == source_id)
    && (e.target_node_id == target_id)
    && (e.edge_type == edge_type)

unfoldable pub insert_edge : ℕ → ℕ → ℕ → EdgeStructureItem → Upserting → Upserting
insert_edge org_id source_id target_id edge u =
    let row : GovernanceGraphEdge = record {
      id = u.session.next_id;
      org_id = org_id;
      source_node_id = source_id;
      target_node_id = target_id;
      edge_type = edge.edge_type;
      weight = edge.weight;
      properties = edge.properties;
      is_active = edge.is_active;
    } in
    record u {
      session = record (u.session) {
        edges = u.session.edges ++ row ∷ [];
        next_id = suc u.session.next_id;
      };
      counts = record (u.counts) { edges_created = u.counts.edges_created + 1 };
    }

unfoldable pub bool_beq : Bool → Bool → Bool
bool_beq true b = b
bool_beq false b = not b

unfoldable pub edge_changed : GovernanceGraphEdge → EdgeStructureItem → Bool
edge_changed existing edge =
    not (bool_beq existing.is_active edge.is_active)
    || not (existing.weight == edge.weight)
    || not (same_properties existing.properties edge.properties)

unfoldable pub update_edge :
    ℕ → EdgeStructureItem → List GovernanceGraphEdge → List GovernanceGraphEdge
update_edge id edge [] = []
update_edge id edge (e ∷ edges) =
    (if e.id == id
      then record e {
        is_active = edge.is_active;
        weight = edge.weight;
        properties =
            if same_properties e.properties edge.properties then e.properties else edge.properties;
      }
      else e)
    ∷ update_edge id edge edges

unfoldable pub refresh_edge : EdgeStructureItem → GovernanceGraphEdge → Upserting → Upserting
refresh_edge edge existing u = record u {
  session = record (u.session) { edges = update_edge existing.id edge u.session.edges };
  counts =
      if edge_changed existing edge
      then record (u.counts) { edges_updated = u.counts.edges_updated + 1 }
      else u.counts;
}

unfoldable pub write_edge :
    ℕ → ℕ → ℕ → EdgeStructureItem → Upserting → Option GovernanceGraphEdge → Upserting
write_edge org_id source_id target_id edge u none = insert_edge org_id source_id target_id edge u
write_edge org_id source_id target_id edge u (some existing) = refresh_edge edge existing u

-- An end that is not resolved: the edge is skipped.
unfoldable pub store_edge :
    ℕ → EdgeStructureItem → Upserting → Option ℕ → Option ℕ → Option Upserting
store_edge org_id edge u (some source_id) (some target_id) = do
  existing ←
      one_or_none (keep_if (has_edge_key org_id source_id target_id edge.edge_type) u.session.edges)
  some (write_edge org_id source_id target_id edge u existing)
store_edge org_id edge u (some source_id) none = some u
store_edge org_id edge u none target_id = some u

unfoldable pub upsert_edge : ℕ → Upserting → EdgeStructureItem → Option Upserting
upsert_edge org_id u edge = do
  source ← resolve_node_id org_id u (edge.source_node_type, edge.source_node_key)
  target ← resolve_node_id org_id source.0 (edge.target_node_type, edge.target_node_key)
  store_edge org_id edge target.0 source.1 target.1

-- A loop that stops where a step raises.
unfoldable pub each :
    {A : Type 0} → (Upserting → A → Option Upserting) → Upserting → List A → Option Upserting
each f u [] = some u
each f u (a ∷ rest) = f u a >>= λ u'. each f u' rest

abbrev pub start : Session → Upserting
start session = record {
  session = session;
  node_id_by_key = [];
  counts = record { nodes_created = 0; nodes_updated = 0; edges_created = 0; edges_updated = 0 };
}

-- `none`: `MultipleResultsFound` was raised, and the transaction is not committed.
unfoldable pub upsert_graph_structure :
    Session → ℕ → List NodeStructureItem → List EdgeStructureItem → Option (Session × Counts)
upsert_graph_structure session org_id nodes edges = do
  u ← each (upsert_node org_id) (start session) nodes
  v ← each (upsert_edge org_id) u edges
  some (v.session, v.counts)
