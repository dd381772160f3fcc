-- ===== src/Ingest/Entries.antt =====
-- core-side-patch/reference_traversal_cte.py, `_load_active_nodes_edges_via_orm`: the tuples that the
-- traversal reads, against the rows of the tables.
use mathlib.Core.List.Memᴰ
use p2_ai_knowledge_graph_fo.Base.{
  ℕ, ◌≡◌, refl, sym, subst, ◌↔◌, inl, inr, true, ◌&&◌, List, [], ◌∷◌, map, none, some, keep_if,
  mem-keep_if, mem-map, Memᴰ, Distinct, arith, ◌==◌, eq_iff, eq_refl, nat_eq, list_eq, Bool-cases,
}
use p2_ai_knowledge_graph_fo.Tables.{Session, GovernanceGraphNode, GovernanceGraphEdge}
use p2_ai_knowledge_graph_fo.Reference.{NodeEntry, EdgeEntry, node_lookup, outgoing}
use p2_ai_knowledge_graph_fo.Reference.Step.{CoreEdge}
use p2_ai_knowledge_graph_fo.Ingest.{edge_entries}

-- A row that the traversal follows from `u` to `v`.
abbrev pub Row : Session → ℕ → ℕ → Type 0
Row session u v =
    (e : GovernanceGraphEdge) × Memᴰ e session.edges
    × (e.is_active ≡ true)
    × (e.source_node_id ≡ u)
    × (e.target_node_id ≡ v)

abbrev edge_entry : GovernanceGraphEdge → EdgeEntry
edge_entry e = record {
  source_id = e.source_node_id;
  target_id = e.target_node_id;
  edge_type = e.edge_type;
  is_active = e.is_active;
}

pub CoreEdge-iff :
    (session : Session) (u v : ℕ) → CoreEdge (edge_entries session) u v ↔ Row session u v
unfolding edge_entries outgoing
CoreEdge-iff session u v =
    let from_u = λ (e : EdgeEntry). e.is_active && (e.source_id == u) in
    let entries = map edge_entry session.edges in
    let (targets_to, targets_from) =
      mem-map (λ (e : EdgeEntry). e.target_id) v (keep_if from_u entries) in
    (
      λ m.
          let (entry, kept, eq) = targets_to m in
          let (in_entries, passes) = (mem-keep_if from_u entry entries).0 kept in
          let (e, in_edges, same) = (mem-map edge_entry entry session.edges).0 in_entries in
          (
            e,
            in_edges,
            ground (arith, same, passes),
            ground (arith, same, passes, eq_iff entry.source_id u),
            ground (arith, same, eq),
          ),
      λ (e, in_edges, active, starts, ends). targets_from (
        edge_entry e,
        (mem-keep_if from_u (edge_entry e) entries).1 (
          (mem-map edge_entry (edge_entry e) session.edges).1 (e, in_edges, refl),
          ground (arith, active, starts, eq_iff e.source_node_id u),
        ),
        sym ends,
      ),
    )

abbrev pub node_entry : GovernanceGraphNode → NodeEntry
node_entry n = record { id = n.id; node_type = n.node_type; node_key = n.node_key }

pub node_lookup-missing :
    (nodes : List GovernanceGraphNode) (i : ℕ)
    → ¬ Memᴰ i (map (λ n. n.id) nodes)
    → node_lookup (map node_entry nodes) i ≡ none
unfolding node_lookup
node_lookup-missing [] i h = refl
node_lookup-missing (n ∷ nodes) i h =
    let later = node_lookup-missing nodes i (λ m. h (Memᴰ.tail m)) in
    elim (Bool-cases (n.id == i)) [
      | inl same ↦ absurd (h (Memᴰ.head (sym ((eq_iff n.id i).0 same))))
      | inr other ↦ rw (later, other) refl
    ]

pub node_lookup-found :
    (nodes : List GovernanceGraphNode) (n : GovernanceGraphNode)
    → Distinct (map (λ m. m.id) nodes)
    → Memᴰ n nodes
    → node_lookup (map node_entry nodes) n.id ≡ some (node_entry n)
unfolding node_lookup
node_lookup-found [] n d m = absurd (Memᴰ.not-nil m)
node_lookup-found (k ∷ nodes) n d m = elim (Memᴰ.cases_cons m) [
  | inl e ↦
      subst (λ j. node_lookup (map node_entry (k ∷ nodes)) j.id ≡ some (node_entry j)) (sym e)
        (rw (node_lookup-missing nodes k.id d.0, eq_refl k.id) refl)
  | inr later ↦ rw (node_lookup-found nodes n d.1 later) refl
]
