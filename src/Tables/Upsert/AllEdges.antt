-- ===== src/Tables/Upsert/AllEdges.antt =====
-- core-side-patch/models.py, `upsert_graph_structure`: the second loop stores every pushed edge.
use mathlib.Core.List.Memᴰ
use p2_ai_knowledge_graph_fo.Base.{
  ℕ, ◌<◌, ◌≡◌, refl, ◌∙◌, inl, inr, ⊎_elim, true, List, [], ◌∷◌, some, Text, Dict, lookup, Memᴰ,
  arith, nat_eq, list_eq, pair_eq,
}
use p2_ai_knowledge_graph_fo.Tables.Upsert.{
  EdgeStructureItem, Upserting, resolve_node_id, resolve_in_table, upsert_edge, each,
}
use p2_ai_knowledge_graph_fo.Tables.Upsert.Edges.{EdgesUnique, Linked}
use p2_ai_knowledge_graph_fo.Tables.Upsert.Link.{store_edge_stores}

abbrev pub source_key : EdgeStructureItem → Text × Text
source_key e = (e.source_node_type, e.source_node_key)

abbrev pub target_key : EdgeStructureItem → Text × Text
target_key e = (e.target_node_type, e.target_node_key)

-- Between the ids that are remembered for its ends, one of the edges is pushed.
abbrev pub Between : Dict (Text × Text) ℕ → List EdgeStructureItem → ℕ → ℕ → Type 0
Between ids edges x y =
    (e : EdgeStructureItem) × Memᴰ e edges
    × (lookup (source_key e) ids ≡ some x)
    × (lookup (target_key e) ids ≡ some y)

-- The edge is active, and its ends are remembered.
abbrev pub IsResolved : Upserting → EdgeStructureItem → Type 0
IsResolved u e =
    (e.is_active ≡ true)
    × ((i : ℕ) × (lookup (source_key e) u.node_id_by_key ≡ some i) × (i < u.session.next_id))
    × ((j : ℕ) × (lookup (target_key e) u.node_id_by_key ≡ some j))

resolve_remembered :
    (org_id : ℕ) (u : Upserting) (key : Text × Text) (i : ℕ)
    → lookup key u.node_id_by_key ≡ some i
    → resolve_node_id org_id u key ≡ some (u, some i)
unfolding resolve_node_id resolve_in_table
resolve_remembered org_id u key i h = rw h refl

module _ (org_id : ℕ) where
  upsert_edge_stores :
      (u : Upserting) (edge : EdgeStructureItem)
      → EdgesUnique u.session
      → IsResolved u edge
      → (u' : Upserting) × (upsert_edge org_id u edge ≡ some u')
        × EdgesUnique u'.session
        × Linked u u' (Between u.node_id_by_key (edge ∷ []))
  unfolding upsert_edge
  upsert_edge_stores u edge unique (on, (i, source, given_out), (j, target)) =
      let (u', ends, unique', linked) = store_edge_stores org_id i j edge u unique on given_out in
      (
        u',
        rw
            (
              resolve_remembered org_id u (source_key edge) i source,
              resolve_remembered org_id u (target_key edge) j target,
            )
            ends,
        unique',
        record {
          same_nodes = linked.same_nodes;
          same_ids = linked.same_ids;
          later = linked.later;
          rows = λ x y. (
            λ r. elim ((linked.rows x y).0 r) [
              | inl old ↦ inl old
              | inr (from, to) ↦ inr (edge, Memᴰ.head refl, cc (source, from), cc (target, to))
            ],
            λ r. (linked.rows x y).1 (
                ⊎_elim inl
                  (λ (e, m, from, to).
                    let same = Memᴰ.eq_of_singleton m in
                    inr (cc (same, from, source), cc (same, to, target)))
                  r),
          );
        },
      )

  Linked-cons :
      (u v w : Upserting) (edge : EdgeStructureItem) (edges : List EdgeStructureItem)
      → Linked u v (Between u.node_id_by_key (edge ∷ []))
      → Linked v w (Between v.node_id_by_key edges)
      → Linked u w (Between u.node_id_by_key (edge ∷ edges))
  Linked-cons u v w edge edges one rest = record {
    same_nodes = rest.same_nodes ∙ one.same_nodes;
    same_ids = rest.same_ids ∙ one.same_ids;
    later = let first = one.later in let second = rest.later in omega (arith, first, second);
    rows = λ x y. (
      λ r. elim ((rest.rows x y).0 r) [
        | inl before ↦ elim ((one.rows x y).0 before) [
          | inl old ↦ inl old
          | inr (e, m, from, to) ↦ inr (e, Memᴰ.head (Memᴰ.eq_of_singleton m), from, to)
        ]
        | inr (e, m, from, to) ↦
            inr (e, Memᴰ.tail m, cc (one.same_ids, from), cc (one.same_ids, to))
      ],
      λ r. (rest.rows x y).1 (elim r [
        | inl old ↦ inl ((one.rows x y).1 (inl old))
        | inr (e, m, from, to) ↦ elim (Memᴰ.cases_cons m) [
          | inl same ↦ inl ((one.rows x y).1 (inr (e, Memᴰ.head same, from, to)))
          | inr later ↦ inr (e, later, cc (one.same_ids, from), cc (one.same_ids, to))
        ]
      ]),
    );
  }

  still-IsResolved :
      (u v : Upserting) (P : ℕ → ℕ → Type 0) (e : EdgeStructureItem)
      → Linked u v P
      → IsResolved u e
      → IsResolved v e
  still-IsResolved u v P e linked (on, (i, source, given_out), (j, target)) =
      let later = linked.later in
      (
        on,
        (i, cc (linked.same_ids, source), omega (arith, later, given_out)),
        (j, cc (linked.same_ids, target)),
      )

  -- The second loop.
  pub all_edges_stored :
      (u : Upserting) (edges : List EdgeStructureItem)
      → EdgesUnique u.session
      → ((e : EdgeStructureItem) → Memᴰ e edges → IsResolved u e)
      → (u' : Upserting) × (each (upsert_edge org_id) u edges ≡ some u')
        × EdgesUnique u'.session
        × Linked u u' (Between u.node_id_by_key edges)
  unfolding each
  all_edges_stored u [] unique resolved = (
    u,
    refl,
    unique,
    record {
      same_nodes = refl;
      same_ids = refl;
      later = omega arith;
      rows = λ x y. (inl, ⊎_elim (λ r. r) (λ r. absurd (Memᴰ.not-nil r.1)));
    },
  )
  all_edges_stored u (edge ∷ edges) unique resolved =
      let (v, ends, unique', one) =
        upsert_edge_stores u edge unique (resolved edge (Memᴰ.head refl)) in
      let (w, ends', unique'', rest) = all_edges_stored v edges unique' (λ e m.
        still-IsResolved u v (Between u.node_id_by_key (edge ∷ [])) e one
          (resolved e (Memᴰ.tail m))) in
      (w, rw (ends, ends') refl, unique'', Linked-cons u v w edge edges one rest)
