-- ===== src/Delivery/Accepted.antt =====
-- core-side-patch/models.py and routers/patent_ingest_p2.py: what core finds of a node that was pushed.
use p2_ai_knowledge_graph_fo.Base.{
  ℕ, ◌≡◌, refl, inl, inr, true, not, ◌&&◌, List, [], ◌∷◌, some, Text, keep_if, mem-map, mem-keep_if,
  Memᴰ, arith, ◌==◌, eq_iff, nat_eq, list_eq,
}
use p2_ai_knowledge_graph_fo.Schema.{node_ai_system}
use p2_ai_knowledge_graph_fo.Tables.{
  Session, GovernanceGraphNode, active_keys, load_active_catalog, one_or_none, has_natural_key,
  get_node_by_natural_key, node_id_of, resolve_ai_system_node_id,
}
use p2_ai_knowledge_graph_fo.Tables.Upsert.Single.{keep_if-single}
use p2_ai_knowledge_graph_fo.Tables.Upsert.Nodes.{
  id_of, NodesUnique, IsStored, natural_key_of, natural_key_parts,
}
use p2_ai_knowledge_graph_fo.Validation.{
  DerivedIds, Catalog, validate_obligation_control_ids, compare_derivation,
}
use p2_ai_knowledge_graph_fo.Validation.Laws.{validate-bad_iff}
use p2_ai_knowledge_graph_fo.Reference.{ReferenceDerived}
use p2_ai_knowledge_graph_fo.Ingest.{
  DerivationRequest, Core, recorded, validated, submitted, reference_ids, store_derivation,
  derive_obligations_reference, resolve_max_traversal_depth, compare_and_store, process_checked,
  process_one_derivation,
}

module _ (session : Session) (org_id : ℕ) where
  -- The key of a stored node is in the catalog of its type.
  pub mem-active_keys :
      (t k : Text) (i : ℕ)
      → IsStored org_id session (t, k) i
      → Memᴰ k (active_keys session org_id t)
  unfolding active_keys
  mem-active_keys t k i (n, m, e, open_row) =
      let kept =
        λ (r : GovernanceGraphNode). (r.org_id == org_id) && (r.node_type == t) && not r.archived in
      let of_org : n.org_id ≡ org_id = cc e in
      let of_type : n.node_type ≡ t = cc e in
      (mem-map (λ (r : GovernanceGraphNode). r.node_key) k (keep_if kept session.nodes)).1 (
        n,
        (mem-keep_if kept n session.nodes).1 (
          m,
          ground (arith, open_row, of_org, of_type, eq_iff n.org_id org_id, eq_iff n.node_type t),
        ),
        cc e,
      )

  -- The system of a stored node is found.
  pub resolve_stored :
      (k : Text) (i : ℕ)
      → NodesUnique session
      → IsStored org_id session (node_ai_system, k) i
      → resolve_ai_system_node_id session org_id k ≡ some (some i)
  unfolding resolve_ai_system_node_id get_node_by_natural_key one_or_none node_id_of
  resolve_stored k i unique (n, m, e, open_row) =
      let fits =
        λ (r : GovernanceGraphNode). has_natural_key org_id node_ai_system k r && not r.archived in
      let is_fit : fits n ≡ true =
        ground (arith, open_row, natural_key_of org_id node_ai_system k n (cc e) (cc e) (cc e)) in
      let key = λ (r : GovernanceGraphNode) (h : fits r ≡ true).
        natural_key_parts org_id node_ai_system k r (ground (arith, h)) in
      elim (keep_if-single fits id_of session.nodes unique.ids (λ a b in_a in_b p q.
        let (o, t, j) = key a p in
        let (o', t', j') = key b q in
        unique.keys a b in_a in_b (cc (o, o')) (cc (t, t')) (cc (j, j')))) [
          | inl (free, _) ↦ cc (free n m, is_fit)
          | inr (a, in_a, fit, only) ↦
              let (o, t, j) = key a fit in
              let same = unique.keys a n in_a m (cc (o, e)) (cc (t, e)) (cc (j, e)) in
              rw only (cc (same, e))
        ]

nil_of_no_members : (xs : List Text) → ((i : Text) → ¬ Memᴰ i xs) → xs ≡ []
nil_of_no_members [] h = refl
nil_of_no_members (x ∷ xs) h = absurd (h x (Memᴰ.head refl))

-- Where the catalog has every id, none is bad.
pub validate-nil :
    (payload : DerivedIds) (catalog : Catalog)
    → ((k : Text) → Memᴰ k payload.derived_obligations → Memᴰ k catalog.obligation)
    → ((k : Text) → Memᴰ k payload.derived_controls → Memᴰ k catalog.control_type)
    → validate_obligation_control_ids payload catalog ≡ []
validate-nil payload catalog obligations controls =
    nil_of_no_members (validate_obligation_control_ids payload catalog) (λ i m.
      elim ((validate-bad_iff payload catalog i).0 m) [
        | inl (listed, missing) ↦ missing (obligations i listed)
        | inr (listed, missing) ↦ missing (controls i listed)
      ])

-- A derivation that passes both checks is stored as validated.
pub process-agreeing :
    (payload : DerivationRequest) (org_id user_id : ℕ) (core : Core) (s : ℕ) (r : ReferenceDerived)
    → validate_obligation_control_ids (submitted payload) (load_active_catalog core.session org_id)
      ≡ []
    → resolve_ai_system_node_id core.session org_id payload.ai_system_id ≡ some (some s)
    → derive_obligations_reference core.session s resolve_max_traversal_depth ≡ some r
    → compare_derivation (submitted payload) (reference_ids r) ≡ true
    → process_one_derivation payload org_id user_id core
      ≡ some (
        (store_derivation payload org_id user_id core r true).0,
        recorded validated core.session.next_id r,
      )
unfolding process_one_derivation process_checked compare_and_store store_derivation
process-agreeing payload org_id user_id core s r known found derived agrees =
    rw (known, found, derived, agrees) refl
