-- ===== src/Tables/Upsert/Store.antt =====
-- core-side-patch/models.py, `upsert_graph_structure`: the first loop stores every pushed node, and
-- keeps ids and keys unique.
use mathlib.Core.List.Memᴰ
use mathlib.Core.List.{map-append}
use p2_ai_knowledge_graph_fo.Base.{
  ℕ, suc, ◌≡◌, refl, sym, ap, ◌∙◌, subst, inl, inr, ⊎_elim, Bool, true, false, [], ◌∷◌, ◌++◌, map,
  mem-map, mem-snoc, Memᴰ, Distinct, Distinct-snoc, arith, nat_eq, list_eq, pair_eq,
}
use p2_ai_knowledge_graph_fo.Tables.{GovernanceGraphNode, Session, has_natural_key}
use p2_ai_knowledge_graph_fo.Tables.Upsert.{
  NodeStructureItem, Upserting, insert_node, update_node, refresh_node,
}
use p2_ai_knowledge_graph_fo.Tables.Upsert.Nodes.{
  id_of, identity, NodesUnique, IsNoted, Advance, key_of, refreshed, refreshed-identity,
  refreshed-archived, update_node-map, ids-update_node, natural_key_of, natural_key_parts,
  found_put, lookup-put_cases,
}

module _ (org_id : ℕ) (node : NodeStructureItem) (u : Upserting) (noted : IsNoted org_id u) where
  abbrev matches : GovernanceGraphNode → Bool
  matches = has_natural_key org_id node.node_type node.node_key

  module _ (free : (n : GovernanceGraphNode) → Memᴰ n u.session.nodes → matches n ≡ false) where
    abbrev row : GovernanceGraphNode
    row = record {
      id = u.session.next_id;
      org_id = org_id;
      node_type = node.node_type;
      node_key = node.node_key;
      properties = node.properties;
      archived = false;
    }

    abbrev inserted : Session
    inserted = record (u.session) {
      nodes = u.session.nodes ++ row ∷ [];
      next_id = suc u.session.next_id;
    }

    other_key :
        (n : GovernanceGraphNode)
        → Memᴰ n u.session.nodes
        → ¬ ((n.org_id ≡ org_id) × (n.node_type ≡ node.node_type) × (n.node_key ≡ node.node_key))
    other_key n m (o, t, k) =
        cc (free n m, natural_key_of org_id node.node_type node.node_key n o t k)

    inserted-Unique : NodesUnique inserted
    inserted-Unique = record {
      ids = subst Distinct (sym (map-append id_of u.session.nodes (row ∷ []))) (
          Distinct-snoc (map id_of u.session.nodes) u.session.next_id noted.unique.ids (λ m.
            let (n, in_nodes, e) = (mem-map id_of u.session.next_id u.session.nodes).0 m in
            let below = noted.unique.bounded n in_nodes in absurd (omega (arith, below, e))));
      bounded = λ n m. elim ((mem-snoc n row u.session.nodes).0 m) [
        | inl old ↦ let below = noted.unique.bounded n old in omega (arith, below)
        | inr e ↦ let at = ap id_of e in omega (arith, at)
      ];
      keys = λ n m in_n in_m o t k. elim ((mem-snoc n row u.session.nodes).0 in_n) [
        | inl old ↦ elim ((mem-snoc m row u.session.nodes).0 in_m) [
          | inl old' ↦ noted.unique.keys n m old old' o t k
          | inr e ↦ absurd (other_key n old (cc (o, e), cc (t, e), cc (k, e)))
        ]
        | inr e ↦ elim ((mem-snoc m row u.session.nodes).0 in_m) [
          | inl old' ↦ absurd (other_key m old' (cc (o, e), cc (t, e), cc (k, e)))
          | inr e' ↦ cc (e, e')
        ]
      ];
    }

    in_table : Memᴰ row inserted.nodes
    in_table = (mem-snoc row row u.session.nodes).1 (inr refl)

    pub insert_node-IsNoted : IsNoted org_id (insert_node org_id node u)
    unfolding insert_node
    insert_node-IsNoted = record {
      unique = inserted-Unique;
      noted = λ key i h.
          elim (lookup-put_cases key (key_of node) u.session.next_id i u.node_id_by_key h) [
            | inl (same, at) ↦ (row, in_table, cc (same, at), refl)
            | inr before ↦
                let (n, m, e, open_row) = noted.noted key i before in
                (n, (mem-snoc n row u.session.nodes).1 (inl m), e, open_row)
          ];
    }

    pub insert_node-Advance : Advance org_id u (insert_node org_id node u) (key_of node ∷ [])
    unfolding insert_node
    insert_node-Advance = record {
      same_edges = refl;
      later = omega arith;
      kept = λ n m. (n, (mem-snoc n row u.session.nodes).1 (inl m), refl);
      grown = λ n m. elim ((mem-snoc n row u.session.nodes).0 m) [
        | inl old ↦ inl (n, old, refl)
        | inr e ↦ let at = ap id_of e in inr (cc e, Memᴰ.head (cc e), omega (arith, at))
      ];
      found = λ key h.
          found_put key (key_of node) u.session.next_id u.node_id_by_key
            (⊎_elim (λ m. inl (Memᴰ.eq_of_singleton m)) inr h);
    }

  module _ (existing : GovernanceGraphNode) (there : Memᴰ existing u.session.nodes)
      (fits : matches existing ≡ true) where
    abbrev fresh : GovernanceGraphNode → GovernanceGraphNode
    fresh = refreshed existing.id node.properties

    still :
        (n : GovernanceGraphNode)
        → Memᴰ n u.session.nodes
        → Memᴰ (fresh n) (update_node existing.id node.properties u.session.nodes)
    still n m =
        subst (Memᴰ (fresh n)) (sym (update_node-map existing.id node.properties u.session.nodes))
          (Memᴰ.map fresh m)

    before :
        (n' : GovernanceGraphNode)
        → Memᴰ n' (update_node existing.id node.properties u.session.nodes)
        → (n : GovernanceGraphNode) × Memᴰ n u.session.nodes × (identity n' ≡ identity n)
    before n' m =
        let (n, in_nodes, e) =
          (mem-map fresh n' u.session.nodes).0
            (subst (Memᴰ n') (update_node-map existing.id node.properties u.session.nodes) m) in
        (n, in_nodes, ap identity e ∙ refreshed-identity existing.id node.properties n)

    pub refresh_node-IsNoted : IsNoted org_id (refresh_node node existing u)
    unfolding refresh_node
    refresh_node-IsNoted = record {
      unique = record {
        ids =
            subst Distinct (sym (ids-update_node existing.id node.properties u.session.nodes))
              noted.unique.ids;
        bounded = λ n m.
            let (n₀, in_nodes, e) = before n m in
            let below = noted.unique.bounded n₀ in_nodes in
            let at : n.id ≡ n₀.id = cc e in omega (arith, below, at);
        keys = λ n m in_n in_m o t k.
            let (n₀, old, e) = before n in_n in
            let (m₀, old', e') = before m in_m in
            let same =
              noted.unique.keys n₀ m₀ old old' (cc (e, e', o)) (cc (e, e', t)) (cc (e, e', k)) in
            cc (same, e, e');
      };
      noted = λ key i h.
          elim (lookup-put_cases key (key_of node) existing.id i u.node_id_by_key h) [
            | inl (same, at) ↦
                let parts = natural_key_parts org_id node.node_type node.node_key existing fits in
                let e = refreshed-identity existing.id node.properties existing in
                (
                  fresh existing,
                  still existing there,
                  cc (same, at, parts.0, parts.1, parts.2, e),
                  refreshed-archived existing.id node.properties existing (inl refl),
                )
            | inr old ↦
                let (n, m, e, open_row) = noted.noted key i old in
                (
                  fresh n,
                  still n m,
                  refreshed-identity existing.id node.properties n ∙ e,
                  refreshed-archived existing.id node.properties n (inr open_row),
                )
          ];
    }

    pub refresh_node-Advance : Advance org_id u (refresh_node node existing u) (key_of node ∷ [])
    unfolding refresh_node
    refresh_node-Advance = record {
      same_edges = refl;
      later = omega arith;
      kept = λ n m. (fresh n, still n m, refreshed-identity existing.id node.properties n);
      grown = λ n m. inl (before n m);
      found = λ key h.
          found_put key (key_of node) existing.id u.node_id_by_key
            (⊎_elim (λ m. inl (Memᴰ.eq_of_singleton m)) inr h);
    }
