-- ===== src/Tables/Upsert/Raises.antt =====
-- core-side-patch/models.py: the push that meets two edges with one key.
use mathlib.Core.List.Memᴰ
use p2_ai_knowledge_graph_fo.Base.{
  ℕ, ◌≤◌, ◌≡◌, refl, sym, ap, ◌∙◌, subst, inl, inr, List, [], ◌∷◌, map, length, Option, none, some,
  Option-cases, Text, keep_if, lookup, Memᴰ, arith, list_eq, nat_eq, pair_eq,
}
use p2_ai_knowledge_graph_fo.Tables.{
  Properties, GovernanceGraphNode, GovernanceGraphEdge, Session, one_or_none, create_manual_edge,
}
use p2_ai_knowledge_graph_fo.Tables.Upsert.{
  NodeStructureItem, EdgeStructureItem, Upserting, has_edge_key, write_edge, store_edge,
  resolve_node_id, resolve_in_table, upsert_edge, each, start, upsert_graph_structure,
}
use p2_ai_knowledge_graph_fo.Tables.Upsert.Repeated.{
  kept_twice, raises, IsRepeated, write_edge-IsRepeated,
}
use p2_ai_knowledge_graph_fo.Tables.Upsert.Nodes.{NodesUnique, IsNoted, identity, key_of}
use p2_ai_knowledge_graph_fo.Tables.Upsert.AllNodes.{all_nodes_stored}
use p2_ai_knowledge_graph_fo.Tables.Upsert.Edges.{edge_key_of}
use p2_ai_knowledge_graph_fo.Tables.Upsert.Snapshot.{start-IsNoted}
use p2_ai_knowledge_graph_fo.Tables.Upsert.AllEdges.{source_key, target_key}

-- The ids of an edge's ends are remembered.
abbrev Remembers : Upserting → EdgeStructureItem → ℕ → ℕ → Type 0
Remembers u edge i j =
    (lookup (source_key edge) u.node_id_by_key ≡ some i)
    × (lookup (target_key edge) u.node_id_by_key ≡ some j)

module _ (org : ℕ) where
  upsert_remembered :
      (u : Upserting) (edge : EdgeStructureItem) (i j : ℕ)
      → Remembers u edge i j
      → upsert_edge org u edge ≡ store_edge org edge u (some i) (some j)
  unfolding upsert_edge resolve_node_id resolve_in_table
  upsert_remembered u edge i j (from, to) = rw (from, to) refl

  store_raises :
      (u : Upserting) (edge : EdgeStructureItem) (i j : ℕ)
      → IsRepeated org i j edge.edge_type u.session.edges
      → store_edge org edge u (some i) (some j) ≡ none
  unfolding store_edge
  store_raises u edge i j h = rw (raises _ h) refl

  store_stops :
      (u : Upserting) (f : EdgeStructureItem) (i j : ℕ)
      → one_or_none (keep_if (has_edge_key org i j f.edge_type) u.session.edges) ≡ none
      → store_edge org f u (some i) (some j) ≡ none
  unfolding store_edge
  store_stops u f i j h = rw h refl

  store_writes :
      (u : Upserting) (f : EdgeStructureItem) (i j : ℕ) (existing : Option GovernanceGraphEdge)
      → one_or_none (keep_if (has_edge_key org i j f.edge_type) u.session.edges) ≡ some existing
      → store_edge org f u (some i) (some j) ≡ some (write_edge org i j f u existing)
  unfolding store_edge
  store_writes u f i j existing h = rw h refl

  still :
      (u v : Upserting)
      → v.node_id_by_key ≡ u.node_id_by_key
      → (f : EdgeStructureItem) (i j : ℕ) → Remembers u f i j
      → Remembers v f i j
  still u v same f i j known = rw same known

  -- The loop raises at the edge, or before it.
  edges_raise :
      (edge : EdgeStructureItem) (s t : ℕ) (edges : List EdgeStructureItem) (u : Upserting)
      → Memᴰ edge edges
      → ((f : EdgeStructureItem) → Memᴰ f edges → (i : ℕ) × (j : ℕ) × Remembers u f i j)
      → Remembers u edge s t
      → IsRepeated org s t edge.edge_type u.session.edges
      → each (upsert_edge org) u edges ≡ none
  unfolding each
  edges_raise edge s t [] u m all known h = absurd (Memᴰ.not-nil m)
  edges_raise edge s t (f ∷ edges) u m all known h = elim (Memᴰ.cases_cons m) [
    | inl e ↦
        let none_there : upsert_edge org u f ≡ none =
          subst (λ g. upsert_edge org u g ≡ none) e
            (upsert_remembered u edge s t known ∙ store_raises u edge s t h) in
        rw none_there refl
    | inr later ↦
        let (i, j, here) = all f (Memᴰ.head refl) in
        elim (Option-cases
          (one_or_none (keep_if (has_edge_key org i j f.edge_type) u.session.edges))) [
            | inl e ↦ rw (upsert_remembered u f i j here ∙ store_stops u f i j e) refl
            | inr (existing, e) ↦
                let v = write_edge org i j f u existing in
                let (repeated, same) =
                  write_edge-IsRepeated org s t edge.edge_type i j f u existing h in
                rw (upsert_remembered u f i j here ∙ store_writes u f i j existing e) (
                  edges_raise edge s t edges v later
                    (λ g m.
                      let (a, b, there) = all g (Memᴰ.tail m) in (a, b, still u v same g a b there))
                    (still u v same edge s t known) repeated)
          ]
  ]

  -- The id that is remembered for a key is that of the row that has the key.
  remembered_row :
      (u : Upserting) (n : GovernanceGraphNode) (i : ℕ) (key : Text × Text)
      → IsNoted org u
      → Memᴰ n u.session.nodes
      → identity n ≡ (i, org, key.0, key.1)
      → (j : ℕ) × (lookup key u.node_id_by_key ≡ some j)
      → lookup key u.node_id_by_key ≡ some i
  remembered_row u n i key noted m e (j, h) =
      let (k, in_nodes, e', _) = noted.noted key j h in
      let same = noted.unique.keys k n in_nodes m (cc (e, e')) (cc (e, e')) (cc (e, e')) in
      h ∙ ap some (cc (e, e', same))

-- A row of the organisation has this id and key.
abbrev pub HasRow : ℕ → Session → Text × Text → ℕ → Type 0
HasRow org session key i =
    (n : GovernanceGraphNode) × Memᴰ n session.nodes × (identity n ≡ (i, org, key.0, key.1))

-- Let ids and keys of the nodes be unique, and let an edge row of the organisation join two nodes. After a
-- manual edge of the same type between the same nodes, a structure push raises when it names this
-- edge, whatever else it holds, if it joins pushed nodes only: nothing of the push is stored.
pub upsert_graph_structure-repeated :
    (session : Session) (org s t weight : ℕ) (properties : Properties) (e : GovernanceGraphEdge)
    (nodes : List NodeStructureItem) (edges : List EdgeStructureItem) (edge : EdgeStructureItem)
    → NodesUnique session
    → HasRow org session (source_key edge) s
    → HasRow org session (target_key edge) t
    → Memᴰ e session.edges
    → e.org_id ≡ org
    → e.source_node_id ≡ s
    → e.target_node_id ≡ t
    → e.edge_type ≡ edge.edge_type
    → Memᴰ edge edges
    → ((f : EdgeStructureItem)
        → Memᴰ f edges
        → Memᴰ (source_key f) (map key_of nodes) × Memᴰ (target_key f) (map key_of nodes))
    → upsert_graph_structure
        (create_manual_edge session org s t edge.edge_type weight properties).0
        org
        nodes
        edges
      ≡ none
unfolding upsert_graph_structure create_manual_edge
upsert_graph_structure-repeated session org s t weight properties e nodes edges edge unique
      (n, in_n, at_n) (m, in_m, at_m) in_e o from to ty pushed within =
    let after = (create_manual_edge session org s t edge.edge_type weight properties).0 in
    let manual = (create_manual_edge session org s t edge.edge_type weight properties).1 in
    let key = has_edge_key org s t edge.edge_type in
    let unique' : NodesUnique after = record {
      ids = unique.ids;
      bounded = λ k in_k. let below = unique.bounded k in_k in omega (arith, below);
      keys = unique.keys;
    } in
    let (u, ends, noted, stored) =
      all_nodes_stored org (start after) nodes (start-IsNoted org after unique') in
    let (n', in_n', same) = stored.kept n in_n in
    let (m', in_m', same') = stored.kept m in_m in
    let (source_in, target_in) = within edge pushed in
    rw ends (
      rw
        (edges_raise org edge s t edges u pushed
          (λ f in_f.
            let (source, target) = within f in_f in
            let (i, from_i) = stored.found (source_key f) (inl source) in
            let (j, to_j) = stored.found (target_key f) (inl target) in (i, j, (from_i, to_j)))
          (
            remembered_row org u n' s (source_key edge) noted in_n' (same ∙ at_n)
                (stored.found (source_key edge) (inl source_in)),
            remembered_row org u m' t (target_key edge) noted in_m' (same' ∙ at_m)
                (stored.found (target_key edge) (inl target_in)),
          )
          (subst (λ rows. 2 ≤ length (keep_if key rows)) (sym stored.same_edges)
            (kept_twice key session.edges e manual in_e
              (edge_key_of org s t edge.edge_type e o from to ty)
              (edge_key_of org s t edge.edge_type manual refl refl refl refl))))
        refl)
