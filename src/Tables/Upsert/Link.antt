-- ===== src/Tables/Upsert/Link.antt =====
-- core-side-patch/models.py, `upsert_graph_structure`: a pushed edge is inserted or refreshed.
use mathlib.Core.List.Memᴰ
use mathlib.Core.List.{map-append}
use p2_ai_knowledge_graph_fo.Base.{
  ℕ, ◌<◌, ◌≡◌, refl, sym, ap, ◌∙◌, subst, inl, inr, ⊎_elim, Bool, true, false, [], ◌∷◌, map, some,
  mem-map, mem-snoc, Memᴰ, Distinct, Distinct-snoc, arith, nat_eq, list_eq, pair_eq,
}
use p2_ai_knowledge_graph_fo.Tables.{GovernanceGraphEdge, one_or_none}
use p2_ai_knowledge_graph_fo.Tables.Upsert.{
  EdgeStructureItem, Upserting, has_edge_key, insert_edge, update_edge, refresh_edge, write_edge,
  store_edge,
}
use p2_ai_knowledge_graph_fo.Tables.Upsert.Single.{keep_if-single, same_of_id}
use p2_ai_knowledge_graph_fo.Tables.Upsert.Edges.{
  edge_id, edge_identity, EdgesUnique, Linked, refreshed, update_edge-map, refreshed-identity,
  refreshed-active, refreshed-was_active, ids-update_edge, edge_key_parts, edge_key_of,
}

module _ (org s t : ℕ) (edge : EdgeStructureItem) (u : Upserting) (unique : EdgesUnique u.session)
    (on : edge.is_active ≡ true) where
  abbrev Joins : ℕ → ℕ → Type 0
  Joins x y = (s ≡ x) × (t ≡ y)

  abbrev matches : GovernanceGraphEdge → Bool
  matches = has_edge_key org s t edge.edge_type

  module _ (free : (e : GovernanceGraphEdge) → Memᴰ e u.session.edges → matches e ≡ false)
      (given_out : s < u.session.next_id) where
    abbrev row : GovernanceGraphEdge
    row = record {
      id = u.session.next_id;
      org_id = org;
      source_node_id = s;
      target_node_id = t;
      edge_type = edge.edge_type;
      weight = edge.weight;
      properties = edge.properties;
      is_active = edge.is_active;
    }

    other_key :
        (e : GovernanceGraphEdge)
        → Memᴰ e u.session.edges
        → ¬ (
            (e.org_id ≡ org)
            × (e.source_node_id ≡ s)
            × (e.target_node_id ≡ t)
            × (e.edge_type ≡ edge.edge_type))
    other_key e m (o, s', t', ty) = cc (free e m, edge_key_of org s t edge.edge_type e o s' t' ty)

    insert_edge-Unique : EdgesUnique (insert_edge org s t edge u).session
    unfolding insert_edge
    insert_edge-Unique = record {
      ids = subst Distinct (sym (map-append edge_id u.session.edges (row ∷ []))) (
          Distinct-snoc (map edge_id u.session.edges) u.session.next_id unique.ids (λ m.
            let (e, in_edges, at) = (mem-map edge_id u.session.next_id u.session.edges).0 m in
            let below = (unique.bounded e in_edges).0 in absurd (omega (arith, below, at))));
      bounded = λ e m. elim ((mem-snoc e row u.session.edges).0 m) [
        | inl old ↦
            let (below, source) = unique.bounded e old in
            (omega (arith, below), omega (arith, source))
        | inr new ↦
            let at = ap edge_id new in
            let from = ap (λ (f : GovernanceGraphEdge). f.source_node_id) new in
            (omega (arith, at), omega (arith, from, given_out))
      ];
      keys = λ e f in_e in_f o s' t' ty. elim ((mem-snoc e row u.session.edges).0 in_e) [
        | inl old ↦ elim ((mem-snoc f row u.session.edges).0 in_f) [
          | inl old' ↦ unique.keys e f old old' o s' t' ty
          | inr new ↦
              absurd (other_key e old (cc (o, new), cc (s', new), cc (t', new), cc (ty, new)))
        ]
        | inr new ↦ elim ((mem-snoc f row u.session.edges).0 in_f) [
          | inl old' ↦
              absurd (other_key f old' (cc (o, new), cc (s', new), cc (t', new), cc (ty, new)))
          | inr new' ↦ cc (new, new')
        ]
      ];
    }

    insert_edge-Linked : Linked u (insert_edge org s t edge u) Joins
    unfolding insert_edge
    insert_edge-Linked = record {
      same_nodes = refl;
      same_ids = refl;
      later = omega arith;
      rows = λ x y. (
        λ (e, m, active, from, to). elim ((mem-snoc e row u.session.edges).0 m) [
          | inl old ↦ inl (e, old, active, from, to)
          | inr new ↦ inr (cc (new, from), cc (new, to))
        ],
        ⊎_elim
            (λ (e, m, active, from, to).
              (e, (mem-snoc e row u.session.edges).1 (inl m), active, from, to))
            (λ (from, to). (row, (mem-snoc row row u.session.edges).1 (inr refl), on, from, to)),
      );
    }

  module _ (existing : GovernanceGraphEdge) (there : Memᴰ existing u.session.edges)
      (fits : matches existing ≡ true) where
    abbrev fresh : GovernanceGraphEdge → GovernanceGraphEdge
    fresh = refreshed existing.id edge

    still :
        (e : GovernanceGraphEdge)
        → Memᴰ e u.session.edges
        → Memᴰ (fresh e) (update_edge existing.id edge u.session.edges)
    still e m =
        subst (Memᴰ (fresh e)) (sym (update_edge-map existing.id edge u.session.edges))
          (Memᴰ.map fresh m)

    before :
        (e' : GovernanceGraphEdge)
        → Memᴰ e' (update_edge existing.id edge u.session.edges)
        → (e : GovernanceGraphEdge) × Memᴰ e u.session.edges
          × (e' ≡ fresh e)
          × (edge_identity e' ≡ edge_identity e)
    before e' m =
        let (e, in_edges, eq) =
          (mem-map fresh e' u.session.edges).0
            (subst (Memᴰ e') (update_edge-map existing.id edge u.session.edges) m) in
        (e, in_edges, eq, ap edge_identity eq ∙ refreshed-identity existing.id edge e)

    refresh_edge-Unique : EdgesUnique (refresh_edge edge existing u).session
    unfolding refresh_edge
    refresh_edge-Unique = record {
      ids = subst Distinct (sym (ids-update_edge existing.id edge u.session.edges)) unique.ids;
      bounded = λ e' m.
          let (e, in_edges, _, same) = before e' m in
          let (below, source) = unique.bounded e in_edges in
          let at : e'.id ≡ e.id = cc same in
          let from : e'.source_node_id ≡ e.source_node_id = cc same in
          (omega (arith, below, at), omega (arith, source, from));
      keys = λ e' f' in_e in_f o s' t' ty.
          let (e, old, _, same) = before e' in_e in
          let (f, old', _, same') = before f' in_f in
          let at =
            unique.keys e f old old' (cc (o, same, same')) (cc (s', same, same'))
              (cc (t', same, same')) (cc (ty, same, same')) in
          cc (at, same, same');
    }

    refresh_edge-Linked : Linked u (refresh_edge edge existing u) Joins
    unfolding refresh_edge
    refresh_edge-Linked = record {
      same_nodes = refl;
      same_ids = refl;
      later = omega arith;
      rows = λ x y. (
        λ (e', m, active, from, to).
            let (e, in_edges, eq, same) = before e' m in
            let was =
              refreshed-was_active existing.id edge e
                (sym (ap (λ (f : GovernanceGraphEdge). f.is_active) eq) ∙ active) in
            elim was [
              | inr on ↦ inl (e, in_edges, on, cc (same, from), cc (same, to))
              | inl at ↦
                  let one =
                    same_of_id edge_id u.session.edges e existing unique.ids in_edges there at in
                  let (_, starts, ends, _) = edge_key_parts org s t edge.edge_type existing fits in
                  inr (cc (one, same, starts, from), cc (one, same, ends, to))
            ],
        ⊎_elim
            (λ (e, m, active, from, to).
              let same = refreshed-identity existing.id edge e in
              (
                fresh e,
                still e m,
                refreshed-active existing.id edge e on (inr active),
                cc (same, from),
                cc (same, to),
              ))
            (λ (from, to).
              let (_, starts, ends, _) = edge_key_parts org s t edge.edge_type existing fits in
              let same = refreshed-identity existing.id edge existing in
              (
                fresh existing,
                still existing there,
                refreshed-active existing.id edge existing on (inl refl),
                cc (same, starts, from),
                cc (same, ends, to),
              )),
      );
    }

  -- Where ids and keys are unique the query of one row does not raise.
  pub store_edge_stores :
      s < u.session.next_id
      → (u' : Upserting) × (store_edge org edge u (some s) (some t) ≡ some u')
        × EdgesUnique u'.session
        × Linked u u' Joins
  unfolding store_edge one_or_none write_edge
  store_edge_stores given_out =
      elim (keep_if-single matches edge_id u.session.edges unique.ids (λ e f in_e in_f p q.
        let (o, s₁, t₁, ty) = edge_key_parts org s t edge.edge_type e p in
        let (o', s₂, t₂, ty') = edge_key_parts org s t edge.edge_type f q in
        unique.keys e f in_e in_f (cc (o, o')) (cc (s₁, s₂)) (cc (t₁, t₂)) (cc (ty, ty')))) [
          | inl (free, empty) ↦ (
            insert_edge org s t edge u,
            rw empty refl,
            insert_edge-Unique free given_out,
            insert_edge-Linked free given_out,
          )
          | inr (existing, there, fits, only) ↦ (
            refresh_edge edge existing u,
            rw only refl,
            refresh_edge-Unique existing there fits,
            refresh_edge-Linked existing there fits,
          )
        ]
