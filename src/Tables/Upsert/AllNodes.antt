-- ===== src/Tables/Upsert/AllNodes.antt =====
-- core-side-patch/models.py, `upsert_graph_structure`: the first loop stores every pushed node.
use mathlib.Core.List.Memᴰ
use p2_ai_knowledge_graph_fo.Base.{
  ℕ, ◌≡◌, refl, ◌∙◌, inl, inr, ⊎_elim, List, [], ◌∷◌, map, some, Text, Memᴰ, arith, nat_eq, list_eq,
  pair_eq,
}
use p2_ai_knowledge_graph_fo.Tables.{one_or_none, has_natural_key}
use p2_ai_knowledge_graph_fo.Tables.Upsert.{
  NodeStructureItem, Upserting, insert_node, refresh_node, write_node, upsert_node, each,
}
use p2_ai_knowledge_graph_fo.Tables.Upsert.Single.{keep_if-single}
use p2_ai_knowledge_graph_fo.Tables.Upsert.Nodes.{
  id_of, IsNoted, Advance, key_of, natural_key_parts,
}
use p2_ai_knowledge_graph_fo.Tables.Upsert.Store.{
  insert_node-IsNoted, insert_node-Advance, refresh_node-IsNoted, refresh_node-Advance,
}

module _ (org_id : ℕ) where
  -- Where ids and keys are unique the query of one row does not raise.
  upsert_node_stores :
      (u : Upserting) (node : NodeStructureItem)
      → IsNoted org_id u
      → (u' : Upserting) × (upsert_node org_id u node ≡ some u')
        × IsNoted org_id u'
        × Advance org_id u u' (key_of node ∷ [])
  unfolding upsert_node one_or_none write_node
  upsert_node_stores u node noted =
      let fits = has_natural_key org_id node.node_type node.node_key in
      elim (keep_if-single fits id_of u.session.nodes noted.unique.ids (λ n m in_n in_m p q.
        let (o, t, k) = natural_key_parts org_id node.node_type node.node_key n p in
        let (o', t', k') = natural_key_parts org_id node.node_type node.node_key m q in
        noted.unique.keys n m in_n in_m (cc (o, o')) (cc (t, t')) (cc (k, k')))) [
          | inl (free, empty) ↦ (
            insert_node org_id node u,
            rw empty refl,
            insert_node-IsNoted org_id node u noted free,
            insert_node-Advance org_id node u noted free,
          )
          | inr (existing, there, match, only) ↦ (
            refresh_node node existing u,
            rw only refl,
            refresh_node-IsNoted org_id node u noted existing there match,
            refresh_node-Advance org_id node u noted existing there match,
          )
        ]

  Advance-none : (u : Upserting) → Advance org_id u u []
  Advance-none u = record {
    same_edges = refl;
    later = omega arith;
    kept = λ n m. (n, m, refl);
    grown = λ n m. inl (n, m, refl);
    found = λ key. ⊎_elim (λ m. absurd (Memᴰ.not-nil m)) (λ h. h);
  }

  Advance-cons :
      (u v w : Upserting) (key : Text × Text) (keys : List (Text × Text))
      → Advance org_id u v (key ∷ [])
      → Advance org_id v w keys
      → Advance org_id u w (key ∷ keys)
  Advance-cons u v w key keys one rest = record {
    same_edges = rest.same_edges ∙ one.same_edges;
    later = let first = one.later in let second = rest.later in omega (arith, first, second);
    kept = λ n m.
        let (n', m', e) = one.kept n m in
        let (n'', m'', e') = rest.kept n' m' in (n'', m'', e' ∙ e);
    grown = λ n'' m''. elim (rest.grown n'' m'') [
      | inr (o, k, new) ↦ let first = one.later in inr (o, Memᴰ.tail k, omega (arith, first, new))
      | inl (n', m', e') ↦ elim (one.grown n' m') [
        | inl (n, m, e) ↦ inl (n, m, e' ∙ e)
        | inr (o, k, new) ↦
            let same = Memᴰ.eq_of_singleton k in
            let at : n''.id ≡ n'.id = cc e' in
            inr (cc (o, e'), Memᴰ.head (cc (same, e')), omega (arith, new, at))
      ]
    ];
    found = λ k.
        ⊎_elim
          (λ m. elim (Memᴰ.cases_cons m) [
            | inl e ↦ rest.found k (inr (one.found k (inl (Memᴰ.head e))))
            | inr later ↦ rest.found k (inl later)
          ])
          (λ h. rest.found k (inr (one.found k (inr h))));
  }

  -- The first loop.
  pub all_nodes_stored :
      (u : Upserting) (nodes : List NodeStructureItem)
      → IsNoted org_id u
      → (u' : Upserting) × (each (upsert_node org_id) u nodes ≡ some u')
        × IsNoted org_id u'
        × Advance org_id u u' (map key_of nodes)
  unfolding each
  all_nodes_stored u [] noted = (u, refl, noted, Advance-none u)
  all_nodes_stored u (node ∷ nodes) noted =
      let (v, ends, noted', one) = upsert_node_stores u node noted in
      let (w, ends', noted'', rest) = all_nodes_stored v nodes noted' in
      (
        w,
        rw (ends, ends') refl,
        noted'',
        Advance-cons u v w (key_of node) (map key_of nodes) one rest,
      )
