-- ===== src/GraphBuilder/Structure.antt =====
-- src/p2_satellite/graph_builder.py, `serialize_graph_structure`: the payload of a graph.
use p2_ai_knowledge_graph_fo.Base.{
  Bool, true, List, [], ◌∷◌, map, Option, none, some, Text, sorted, ◌≡◌, refl, sym, subst, Memᴰ,
  mem-map,
}
use mathlib.Core.List.{Permᴰ}
use mathlib.Core.List.Permᴰ
use p2_ai_knowledge_graph_fo.Base.Sorting.{
  IsOrder, keys_le, keys_le-total, keys_le-antisym, keys_le_trans, sorted-Perm,
}
use p2_ai_knowledge_graph_fo.Schema.{split_node_id}
use p2_ai_knowledge_graph_fo.Traversal.{EdgeData, edge_is_active}
use p2_ai_knowledge_graph_fo.GraphBuilder.{Networkx, active_edge}

pub record NodeStructure : Type 0 where
  pub node_type : Text
  pub node_key : Text

pub record EdgeStructure : Type 0 where
  pub source_node_type : Text
  pub source_node_key : Text
  pub target_node_type : Text
  pub target_node_key : Text
  pub edge_type : Option Text
  pub is_active : Bool

pub record Structure : Type 0 where
  pub nodes : List NodeStructure
  pub edges : List EdgeStructure

unfoldable pub node_structure : Text → NodeStructure
node_structure node_id =
    let (node_type, node_key) = split_node_id node_id in
    record { node_type = node_type; node_key = node_key }

-- The builder gives every edge a type. (Python cannot compare a missing one with a text.)
unfoldable pub type_or_empty : Option Text → Text
type_or_empty none = []
type_or_empty (some t) = t

unfoldable pub edge_structure : Text × Text × EdgeData → EdgeStructure
edge_structure (source_id, target_id, attributes) =
    let (source_type, source_key) = split_node_id source_id in
    let (target_type, target_key) = split_node_id target_id in
    record {
      source_node_type = source_type;
      source_node_key = source_key;
      target_node_type = target_type;
      target_node_key = target_key;
      edge_type = attributes.edge_type;
      is_active = edge_is_active attributes;
    }

-- The keys of the two sorts.
unfoldable pub node_sort_key : NodeStructure → List Text
node_sort_key n = n.node_type ∷ n.node_key ∷ []

unfoldable pub edge_sort_key : EdgeStructure → List Text
edge_sort_key e =
    e.source_node_type
    ∷ e.source_node_key
    ∷ e.target_node_type
    ∷ e.target_node_key
    ∷ type_or_empty e.edge_type
    ∷ []

-- `xs.sort(key=key)`
unfoldable pub sorted_by : {A : Type 0} → (A → List Text) → List A → List A
sorted_by key xs = sorted (λ a b. keys_le (key a) (key b)) xs

unfoldable pub serialize_graph_structure : {G : Type 0} → Networkx G → G → Structure
serialize_graph_structure nx g = record {
  nodes = sorted_by node_sort_key (map node_structure (nx.nodes g));
  edges = sorted_by edge_sort_key (map edge_structure (nx.edges g));
}

sorted_by-IsOrder :
    {A : Type 0} (P : A → Type 0) (key : A → List Text)
    → ((a b : A) → P a → P b → key a ≡ key b → a ≡ b)
    → IsOrder P (λ a b. keys_le (key a) (key b))
sorted_by-IsOrder P key same = record {
  total = λ a b. keys_le-total (key a) (key b);
  antisym = λ a b pa pb h h'. same a b pa pb (keys_le-antisym (key a) (key b) h h');
  trans = λ a b c. keys_le_trans (key a) (key b) (key c);
}

same_node : (a b : NodeStructure) → node_sort_key a ≡ node_sort_key b → a ≡ b
unfolding node_sort_key
same_node a b h = cc h

-- The payload of an edge that the builder makes.
abbrev IsBuilt : EdgeStructure → Type 0
IsBuilt e = (e.is_active ≡ true) × ((t : Text) × (e.edge_type ≡ some t))

same_edge :
    (a b : EdgeStructure) → IsBuilt a → IsBuilt b → edge_sort_key a ≡ edge_sort_key b → a ≡ b
unfolding edge_sort_key type_or_empty
same_edge a b (on, (t, typed)) (on', (t', typed')) h = cc (h', on, on', typed, typed', same_type)
  where
    h' :
        a.source_node_type ∷ a.source_node_key ∷ a.target_node_type ∷ a.target_node_key ∷ t ∷ []
        ≡ b.source_node_type ∷ b.source_node_key ∷ b.target_node_type ∷ b.target_node_key ∷ t' ∷ []
    h' = rw (typed, typed') at h

    same_type : t ≡ t'
    same_type = cc h'

IsBuilt-edge_structure :
    (e : Text × Text × EdgeData) (t : Text) → e.2 ≡ active_edge t → IsBuilt (edge_structure e)
unfolding edge_structure edge_is_active
IsBuilt-edge_structure (s, t, d) type eq = (rw eq refl, (type, rw eq refl))

-- Let every edge of a graph be one that the builder makes, active and of some type, and let a second
-- graph list the same nodes and edges in another order. Then both are serialized into the same
-- payload.
pub serialize_graph_structure_stable :
    {G : Type 0} (nx : Networkx G) (g g' : G)
    → Permᴰ (nx.nodes g) (nx.nodes g')
    → Permᴰ (nx.edges g) (nx.edges g')
    → ((e : Text × Text × EdgeData) → Memᴰ e (nx.edges g') → (t : Text) × (e.2 ≡ active_edge t))
    → serialize_graph_structure nx g ≡ serialize_graph_structure nx g'
unfolding serialize_graph_structure sorted_by
serialize_graph_structure_stable nx g g' nodes edges built =
    let same_nodes =
      sorted-Perm (λ n. Unit) (λ a b. keys_le (node_sort_key a) (node_sort_key b))
        (sorted_by-IsOrder (λ n. Unit) node_sort_key (λ a b _ _ h. same_node a b h))
        (map node_structure (nx.nodes g)) (map node_structure (nx.nodes g'))
        (Permᴰ.map node_structure nodes) (λ n m. tt) in
    let same_edges =
      sorted-Perm IsBuilt (λ a b. keys_le (edge_sort_key a) (edge_sort_key b))
        (sorted_by-IsOrder IsBuilt edge_sort_key same_edge) (map edge_structure (nx.edges g))
        (map edge_structure (nx.edges g')) (Permᴰ.map edge_structure edges)
        (λ e m.
          let (d, in_edges, eq) = (mem-map edge_structure e (nx.edges g')).0 m in
          let (t, made) = built d in_edges in
          subst IsBuilt (sym eq) (IsBuilt-edge_structure d t made)) in
    rw (same_nodes, same_edges) refl
