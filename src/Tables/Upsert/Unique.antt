-- ===== src/Tables/Upsert/Unique.antt =====
-- core-side-patch/models.py: where no two edges have one key, pushing an edge does not raise.
use p2_ai_knowledge_graph_fo.Base.{
  ℕ, ◌≤◌, ◌≡◌, refl, inl, inr, Bool, true, List, [], ◌∷◌, ◌++◌, some, Text, keep_if, length,
  length-append, Bool-cases, arith, ◌==◌, list_eq, nat_eq, eq_iff, ◌>>=◌,
}
use p2_ai_knowledge_graph_fo.Tables.{GovernanceGraphEdge, one_or_none}
use p2_ai_knowledge_graph_fo.Tables.Upsert.{
  EdgeStructureItem, Upserting, has_edge_key, insert_edge, update_edge, refresh_edge, write_edge,
  store_edge,
}

-- At most one edge of each organisation, source, target and type.
abbrev KeysUnique : List GovernanceGraphEdge → Type 0
KeysUnique edges =
    (org source target : ℕ) (edge_type : Text)
    → length (keep_if (has_edge_key org source target edge_type) edges) ≤ 1

kept_append :
    (p : GovernanceGraphEdge → Bool) (xs ys : List GovernanceGraphEdge)
    → keep_if p (xs ++ ys) ≡ keep_if p xs ++ keep_if p ys
kept_append p [] ys = refl
kept_append p (x ∷ xs) ys = ground (arith, kept_append p xs ys)

length-kept_update :
    (org source target : ℕ) (edge_type : Text) (id : ℕ) (edge : EdgeStructureItem)
    (edges : List GovernanceGraphEdge)
    → length (keep_if (has_edge_key org source target edge_type) (update_edge id edge edges))
      ≡ length (keep_if (has_edge_key org source target edge_type) edges)
unfolding update_edge has_edge_key
length-kept_update org source target edge_type id edge [] = refl
length-kept_update org source target edge_type id edge (e ∷ edges) =
    let rest = length-kept_update org source target edge_type id edge edges in
    elim (Bool-cases (e.id == id)) [
      | inl h ↦ rw h (ground (arith, rest))
      | inr h ↦ rw h (ground (arith, rest))
    ]

-- The parts of a key that a row has.
key_parts :
    (o s t : ℕ) (ty : Text) (row : GovernanceGraphEdge)
    → has_edge_key o s t ty row ≡ true
    → (row.org_id ≡ o) × (row.source_node_id ≡ s) × (row.target_node_id ≡ t) × (row.edge_type ≡ ty)
unfolding has_edge_key
key_parts o s t ty row h = ground (
  arith,
  h,
  eq_iff row.org_id o,
  eq_iff row.source_node_id s,
  eq_iff row.target_node_id t,
  eq_iff row.edge_type ty,
)

append_row :
    (row : GovernanceGraphEdge) (edges : List GovernanceGraphEdge) (o s t : ℕ) (ty : Text)
    → keep_if (has_edge_key row.org_id row.source_node_id row.target_node_id row.edge_type) edges
      ≡ []
    → length (keep_if (has_edge_key o s t ty) edges) ≤ 1
    → length (keep_if (has_edge_key o s t ty) (edges ++ row ∷ [])) ≤ 1
append_row row edges o s t ty free one =
    let key = has_edge_key o s t ty in
    elim (Bool-cases (key row)) [
      | inr other ↦
          rw (kept_append key edges (row ∷ []), other)
            (omega (arith, one, length-append (keep_if key edges) []))
      | inl fits ↦
          let parts = key_parts o s t ty row fits in
          let empty : keep_if key edges ≡ [] =
            rw (← parts.0, ← parts.1, ← parts.2, ← parts.3) free in
          rw (kept_append key edges (row ∷ []), fits, empty) (omega arith)
    ]

-- A new edge of a key that no edge has.
insert_edge-KeysUnique :
    (org source target : ℕ) (edge : EdgeStructureItem) (u : Upserting)
    → keep_if (has_edge_key org source target edge.edge_type) u.session.edges ≡ []
    → KeysUnique u.session.edges
    → KeysUnique (insert_edge org source target edge u).session.edges
unfolding insert_edge
insert_edge-KeysUnique org source target edge u free unique o s t ty =
    append_row
      (record {
        id = u.session.next_id;
        org_id = org;
        source_node_id = source;
        target_node_id = target;
        edge_type = edge.edge_type;
        weight = edge.weight;
        properties = edge.properties;
        is_active = edge.is_active;
      })
      u.session.edges o s t ty free (unique o s t ty)

write_edge-KeysUnique :
    (org source target : ℕ) (edge : EdgeStructureItem) (u : Upserting)
    (found : List GovernanceGraphEdge)
    → keep_if (has_edge_key org source target edge.edge_type) u.session.edges ≡ found
    → length found ≤ 1
    → KeysUnique u.session.edges
    → (u' : Upserting) × ((one_or_none found >>= λ existing.
          some (write_edge org source target edge u existing))
        ≡ some u')
      × KeysUnique u'.session.edges
unfolding one_or_none write_edge refresh_edge
write_edge-KeysUnique org source target edge u [] e short unique = (
  insert_edge org source target edge u,
  refl,
  insert_edge-KeysUnique org source target edge u e unique,
)
write_edge-KeysUnique org source target edge u (x ∷ []) e short unique = (
  refresh_edge edge x u,
  refl,
  λ o s t ty. omega (arith, unique o s t ty, length-kept_update o s t ty x.id edge u.session.edges),
)
write_edge-KeysUnique org source target edge u (x ∷ y ∷ found) e short unique =
    absurd (omega (arith, short))

-- Where no two edges have the same organisation, ends and type, storing a pushed edge between two nodes does not
-- raise, and afterwards again no two edges have.
store_edge-KeysUnique :
    (org source target : ℕ) (edge : EdgeStructureItem) (u : Upserting)
    → KeysUnique u.session.edges
    → (u' : Upserting) × (store_edge org edge u (some source) (some target) ≡ some u')
      × KeysUnique u'.session.edges
unfolding store_edge
store_edge-KeysUnique org source target edge u unique =
    write_edge-KeysUnique org source target edge u
      (keep_if (has_edge_key org source target edge.edge_type) u.session.edges) refl
      (unique org source target edge.edge_type) unique
