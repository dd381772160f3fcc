-- ===== src/Delivery/Received.antt =====
-- src/p2_satellite/graph_builder.py and core-side-patch/routers/patent_ingest_p2.py: the nodes and the
-- edges that core reads of a graph's payload.
use mathlib.Core.List.Memᴰ
use p2_ai_knowledge_graph_fo.Base.{
  ◌≡◌, refl, sym, ap, ◌∙◌, subst, ◌↔◌, inl, inr, true, List, [], ◌∷◌, map, some, some-injective,
  Text, Memᴰ, mem-map, mem-sorted,
}
use p2_ai_knowledge_graph_fo.Base.Sorting.{keys_le}
use p2_ai_knowledge_graph_fo.Schema.{split_node_id}
use p2_ai_knowledge_graph_fo.Traversal.{EdgeData, edge_is_active}
use p2_ai_knowledge_graph_fo.GraphBuilder.{Networkx, active_edge}
use p2_ai_knowledge_graph_fo.GraphBuilder.Structure.{
  EdgeStructure, node_structure, edge_structure, node_sort_key, edge_sort_key, sorted_by,
  serialize_graph_structure,
}
use p2_ai_knowledge_graph_fo.Tables.Upsert.{EdgeStructureItem}
use p2_ai_knowledge_graph_fo.Tables.Upsert.Nodes.{key_of}
use p2_ai_knowledge_graph_fo.Tables.Upsert.AllEdges.{source_key, target_key}
use p2_ai_knowledge_graph_fo.Delivery.{received_node, received_edge, received_edges}

mem-sorted_by :
    {A : Type 0} (key : A → List Text) (a : A) (xs : List A) → Memᴰ a (sorted_by key xs) ↔ Memᴰ a xs
unfolding sorted_by
mem-sorted_by key a xs = mem-sorted (λ x y. keys_le (key x) (key y)) a xs

-- All edges are read if each is.
read_all :
    (edges : List EdgeStructure)
    → ((e : EdgeStructure)
        → Memᴰ e edges
        → (item : EdgeStructureItem) × (received_edge e ≡ some item))
    → (items : List EdgeStructureItem) × (received_edges edges ≡ some items)
      × ((item : EdgeStructureItem)
          → Memᴰ item items ↔ ((e : EdgeStructure) × Memᴰ e edges × (received_edge e ≡ some item)))
unfolding received_edges
read_all [] each =
    ([], refl, λ item. (λ m. absurd (Memᴰ.not-nil m), λ h. absurd (Memᴰ.not-nil h.1)))
read_all (e ∷ edges) each =
    let (one, reads) = each e (Memᴰ.head refl) in
    let (items, all, mem) = read_all edges (λ f m. each f (Memᴰ.tail m)) in
    (
      one ∷ items,
      rw (reads, all) refl,
      λ item. (
        λ m. elim (Memᴰ.cases_cons m) [
          | inl same ↦ (e, Memᴰ.head refl, rw same reads)
          | inr later ↦ let (f, n, eq) = (mem item).0 later in (f, Memᴰ.tail n, eq)
        ],
        λ (f, n, eq). elim (Memᴰ.cases_cons n) [
          | inl same ↦ Memᴰ.head (some-injective _ _ (sym eq ∙ ap received_edge same ∙ reads))
          | inr later ↦ Memᴰ.tail ((mem item).1 (f, later, eq))
        ],
      ),
    )

-- The item that is read of an edge that the builder makes.
abbrev IsItem : Text × Text × EdgeData → EdgeStructureItem → Type 0
IsItem e item =
    (source_key item ≡ split_node_id e.0)
    × (target_key item ≡ split_node_id e.1)
    × (item.is_active ≡ true)

read_edge :
    (e : Text × Text × EdgeData) (t : Text)
    → e.2 ≡ active_edge t
    → (item : EdgeStructureItem) × (received_edge (edge_structure e) ≡ some item) × IsItem e item
unfolding received_edge edge_structure edge_is_active
read_edge (u, v, d) t built = rw built (_, refl, (refl, refl, refl))

module _ {G : Type 0} (nx : Networkx G) (graph : G) where
  -- What core reads are the nodes of the graph.
  pub mem-read_nodes :
      (key : Text × Text)
      → Memᴰ key (map key_of (map received_node (serialize_graph_structure nx graph).nodes))
        ↔ ((v : Text) × Memᴰ v (nx.nodes graph) × (key ≡ split_node_id v))
  unfolding serialize_graph_structure received_node node_structure
  mem-read_nodes key =
      let payload = sorted_by node_sort_key (map node_structure (nx.nodes graph)) in
      (
        λ m.
            let (item, in_items, eq) = (mem-map key_of key (map received_node payload)).0 m in
            let (n, in_payload, eq') = (mem-map received_node item payload).0 in_items in
            let (v, in_nodes, eq'') =
              (mem-map node_structure n (nx.nodes graph)).0
                ((mem-sorted_by node_sort_key n _).0 in_payload) in
            (v, in_nodes, cc (eq, eq', eq'')),
        λ (v, in_nodes, eq). Memᴰ.cast eq (
            Memᴰ.map key_of (
              Memᴰ.map received_node
                ((mem-sorted_by node_sort_key _ _).1 (Memᴰ.map node_structure in_nodes)))),
      )

  -- What core reads are the edges of the graph.
  pub read_graph_edges :
      ((e : Text × Text × EdgeData) → Memᴰ e (nx.edges graph) → (t : Text) × (e.2 ≡ active_edge t))
      → (items : List EdgeStructureItem) × (received_edges
            (serialize_graph_structure nx graph).edges
          ≡ some items)
        × ((item : EdgeStructureItem)
            → Memᴰ item items
            → (e : Text × Text × EdgeData) × Memᴰ e (nx.edges graph) × IsItem e item)
        × ((e : Text × Text × EdgeData)
            → Memᴰ e (nx.edges graph)
            → (item : EdgeStructureItem) × Memᴰ item items × IsItem e item)
  unfolding serialize_graph_structure
  read_graph_edges built =
      let payload = sorted_by edge_sort_key (map edge_structure (nx.edges graph)) in
      let of_payload = λ (s : EdgeStructure) (m : Memᴰ s payload).
        (mem-map edge_structure s (nx.edges graph)).0 ((mem-sorted_by edge_sort_key s _).0 m) in
      let (items, all, mem) = read_all payload (λ s m.
        let (e, in_edges, eq) = of_payload s m in
        let (t, made) = built e in_edges in
        let (item, reads, _) = read_edge e t made in (item, ap received_edge eq ∙ reads)) in
      (
        items,
        all,
        λ item m.
            let (s, in_payload, eq) = (mem item).0 m in
            let (e, in_edges, eq') = of_payload s in_payload in
            let (t, made) = built e in_edges in
            let (item', reads, is_item) = read_edge e t made in
            let same = some-injective _ _ (sym reads ∙ ap received_edge (sym eq') ∙ eq) in
            (e, in_edges, subst (IsItem e) same is_item),
        λ e in_edges.
            let (t, made) = built e in_edges in
            let (item, reads, is_item) = read_edge e t made in
            (
              item,
              (mem item).1 (
                edge_structure e,
                (mem-sorted_by edge_sort_key _ _).1 (Memᴰ.map edge_structure in_edges),
                reads,
              ),
              is_item,
            ),
      )
