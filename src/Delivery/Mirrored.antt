-- ===== src/Delivery/Mirrored.antt =====
-- src/p2_satellite/graph_builder.py and core-side-patch/models.py: once the satellite's graph is pushed,
-- core's rows mirror it.
use p2_ai_knowledge_graph_fo.Base.{
  ℕ, ◌≡◌, refl, sym, ◌∙◌, subst, ◌↔◌, ◌⊎◌, inl, inr, false, List, map, some, Text, Memᴰ, mem-map,
  Bool-cases, arith,
}
use p2_ai_knowledge_graph_fo.Schema.{split_node_id}
use p2_ai_knowledge_graph_fo.Traversal.{EdgeData, DiGraph, edge_is_active}
use p2_ai_knowledge_graph_fo.Traversal.Step.{ActiveEdge, HasType}
use p2_ai_knowledge_graph_fo.Reference.{node_lookup}
use p2_ai_knowledge_graph_fo.Reference.Step.{Names}
use p2_ai_knowledge_graph_fo.Agreement.{Mirrors}
use p2_ai_knowledge_graph_fo.Tables.{Session}
use p2_ai_knowledge_graph_fo.Tables.Upsert.{NodeStructureItem, EdgeStructureItem}
use p2_ai_knowledge_graph_fo.Tables.Upsert.Single.{same_of_id}
use p2_ai_knowledge_graph_fo.Tables.Upsert.Nodes.{id_of, IsStored}
use p2_ai_knowledge_graph_fo.Tables.Upsert.Edges.{EdgesUnique, ActiveRow}
use p2_ai_knowledge_graph_fo.Tables.Upsert.AllEdges.{source_key, target_key}
use p2_ai_knowledge_graph_fo.Tables.Upsert.Snapshot.{IsPushed}
use p2_ai_knowledge_graph_fo.Ingest.{node_entries, edge_entries}
use p2_ai_knowledge_graph_fo.Ingest.Entries.{
  CoreEdge-iff, node_entry, node_lookup-missing, node_lookup-found,
}
use p2_ai_knowledge_graph_fo.Delivery.View.{IsGraphOf, HasRow, IsCurrent, Stands}

module _ (g : DiGraph) (nodes : List Text) (edges : List (Text × Text × EdgeData))
    (of : IsGraphOf g nodes edges) (org_id : ℕ) (before after : Session)
    (node_items : List NodeStructureItem) (edge_items : List EdgeStructureItem)
    (stands : Stands nodes edges node_items edge_items) (bounded : EdgesUnique before)
    (current : IsCurrent org_id before edges)
    (pushed : IsPushed org_id before after node_items edge_items) where
  -- The id of a node's row; an id that no row has for what is no node.
  locate :
      (v : Text)
      → (i : ℕ) × (Memᴰ v nodes × IsStored org_id after (split_node_id v) i
          ⊎ (g.has_node v ≡ false) × (i ≡ after.next_id))
  locate v = elim (Bool-cases (g.has_node v)) [
    | inl there ↦
        let m = (of.present v).0 there in
        let (i, stored) =
          pushed.stored (split_node_id v) ((stands.node_keys (split_node_id v)).1 (v, m, refl)) in
        (i, inl (m, stored))
    | inr missing ↦ (after.next_id, inr (missing, refl))
  ]

  pub row : Text → ℕ
  row v = (locate v).0

  located :
      (v : Text)
      → Memᴰ v nodes × IsStored org_id after (split_node_id v) (row v)
        ⊎ (g.has_node v ≡ false) × (row v ≡ after.next_id)
  unfolding row
  located v = (locate v).1

  pub stored_at : (v : Text) → Memᴰ v nodes → IsStored org_id after (split_node_id v) (row v)
  stored_at v m = elim (located v) [
    | inl (_, stored) ↦ stored
    | inr (missing, _) ↦ absurd (cc (missing, (of.present v).1 m))
  ]

  same_row :
      (key key' : Text × Text) (x : ℕ)
      → HasRow org_id after key x
      → HasRow org_id after key' x
      → key ≡ key'
  same_row key key' x (n, m, e) (n', m', e') =
      let same = same_of_id id_of after.nodes n n' pushed.nodes_unique.ids m m' (cc (e, e')) in
      cc (same, e, e')

  same_key :
      (key : Text × Text) (x y : ℕ) → HasRow org_id after key x → HasRow org_id after key y → x ≡ y
  same_key key x y (n, m, e) (n', m', e') =
      let same = pushed.nodes_unique.keys n n' m m' (cc (e, e')) (cc (e, e')) (cc (e, e')) in
      cc (same, e, e')

  stored-HasRow :
      (key : Text × Text) (x : ℕ) → IsStored org_id after key x → HasRow org_id after key x
  stored-HasRow key x (n, m, e, _) = (n, m, e)

  kept-HasRow : (key : Text × Text) (x : ℕ) → HasRow org_id before key x → HasRow org_id after key x
  kept-HasRow key x (n, m, e) = let (n', m', e') = pushed.kept n m in (n', m', e' ∙ e)

  to_row : (u v : Text) → ActiveEdge g u v → ActiveRow after (row u) (row v)
  to_row u v (d, m, on) =
      let in_edges = (of.out u v d).0 m in
      let (from, to) = of.ends (u, v, d) in_edges in
      let (item, in_items, source, target) = stands.of_edge (u, v, d) in_edges in
      (pushed.rows (row u) (row v)).1 (
        inr (
          item,
          in_items,
          subst (λ key. IsStored org_id after key (row u)) (sym source) (stored_at u from),
          subst (λ key. IsStored org_id after key (row v)) (sym target) (stored_at v to),
        ))

  -- An edge of the graph whose ends have these rows leaves `u`.
  leaves :
      (u : Text) (y : ℕ) (e : Text × Text × EdgeData)
      → Memᴰ u nodes
      → Memᴰ e edges
      → HasRow org_id after (split_node_id e.0) (row u)
      → HasRow org_id after (split_node_id e.1) y
      → (v : Text) × (y ≡ row v) × ActiveEdge g u v
  unfolding edge_is_active
  leaves u y (a, b, d) at m source target =
      let (from, to) = of.ends (a, b, d) m in
      let same_key_of =
        same_row (split_node_id a) (split_node_id u) (row u) source
          (stored-HasRow (split_node_id u) (row u) (stored_at u at)) in
      let same = of.ids a u from at same_key_of in
      let (t, made) = of.made (a, b, d) m in
      (
        b,
        same_key (split_node_id b) y (row b) target
            (stored-HasRow (split_node_id b) (row b) (stored_at b to)),
        (d, (of.out u b d).1 (subst (λ s. Memᴰ (s, b, d) edges) same m), rw made refl),
      )

  from_row :
      (u : Text) (y : ℕ) → ActiveRow after (row u) y → (v : Text) × (y ≡ row v) × ActiveEdge g u v
  from_row u y active = elim (located u) [
    | inr (_, at) ↦
        let (e, m, _, from, _) = active in
        let below = (pushed.edges_unique.bounded e m).1 in absurd (omega (arith, below, from, at))
    | inl (at, stored) ↦ elim ((pushed.rows (row u) y).0 active) [
      | inr (item, m, source, target) ↦
          let (e, in_edges, s, t) = stands.of_item item m in
          leaves u y e at in_edges
            (subst (λ key. HasRow org_id after key (row u)) s
              (stored-HasRow (source_key item) (row u) source))
            (subst (λ key. HasRow org_id after key y) t (stored-HasRow (target_key item) y target))
      | inl old ↦
          let (n', in_after, named, _) = stored in
          let (f, m, _, from, _) = old in
          let below = (bounded.bounded f m).1 in
          elim (pushed.grown n' in_after) [
            | inr (_, _, new) ↦
                let same : n'.id ≡ row u = cc named in
                absurd (omega (arith, below, from, new, same))
            | inl (n, in_before, same) ↦
                let (e, in_edges, source, target) =
                  current (row u) y n old in_before (cc (same, named)) (cc (same, named)) in
                leaves u y e at in_edges (kept-HasRow (split_node_id e.0) (row u) source)
                  (kept-HasRow (split_node_id e.1) y target)
          ]
    ]
  ]

  named : (v t k : Text) → HasType g t v k ↔ Names t k (node_lookup (node_entries after) (row v))
  unfolding node_entries
  named v t k = elim (located v) [
    | inr (missing, at) ↦
        let nothing = node_lookup-missing after.nodes (row v) (λ m.
          let (n, in_nodes, e) = (mem-map id_of (row v) after.nodes).0 m in
          let below = pushed.nodes_unique.bounded n in_nodes in
          absurd (omega (arith, below, e, at))) in
        rw nothing (λ h. cc (h, of.absent v missing), λ h. absurd h)
    | inl (m, (n, in_nodes, e, _)) ↦
        let found = node_lookup-found after.nodes n pushed.nodes_unique.ids in_nodes in
        let same : n.id ≡ row v = cc e in
        let found' : node_lookup (map node_entry after.nodes) (row v) ≡ some (node_entry n) =
          subst (λ i. node_lookup (map node_entry after.nodes) i ≡ some (node_entry n)) same
            found in
        let typed = of.attributes v m in
        rw found' (λ h. (cc (h, typed, e), cc (h, typed, e)), λ h. cc (h.0, h.1, typed, e))
  ]

  pub pushed-Mirrors : Mirrors g (node_entries after) (edge_entries after) row
  pushed-Mirrors = record {
    edge_to = λ u v e. (CoreEdge-iff after (row u) (row v)).1 (to_row u v e);
    edge_from = λ u y e. from_row u y ((CoreEdge-iff after (row u) y).0 e);
    same_data = named;
  }
