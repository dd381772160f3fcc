-- ===== src/GraphQuery/Upstream.antt =====
-- core-side-patch/graph_query.py: find_upstream_ai_systems finds the systems that reach a node.
use mathlib.Core.List.Memᴰ
use p2_ai_knowledge_graph_fo.Base.{
  ℕ, ◌≤◌, ◌≡◌, refl, sym, ◌↔◌, inl, inr, List, [], map, Option, some, Text, add, mem-add, sorted,
  text_le, mem-sorted, keep_if, mem-keep_if, mem-map, mem-snoc, length, length-map, Memᴰ, arith,
  ◌==◌, eq_iff, nat_eq, list_eq,
}
use p2_ai_knowledge_graph_fo.Schema.{node_ai_system}
use p2_ai_knowledge_graph_fo.Paths.{Walk, Walk-reverse}
use p2_ai_knowledge_graph_fo.Tables.{Session, GovernanceGraphNode, GovernanceGraphEdge}
use p2_ai_knowledge_graph_fo.BreadthFirst.{Searching}
use p2_ai_knowledge_graph_fo.BreadthFirst.Ends.{search_returns}
use p2_ai_knowledge_graph_fo.BreadthFirst.Exact.{search_invariant, seen_exact}
use p2_ai_knowledge_graph_fo.GraphQuery.Search.{
  search_backward, ai_system_keys, find_upstream_ai_systems, depth_or_default, load_org_graph,
  nodes_of, org_edges,
}
use p2_ai_knowledge_graph_fo.GraphQuery.OrgGraph.{
  OrgNode, OrgEdge, UniqueIds, mem-nodes_by_id, mem-org_edges, mem-incoming, incoming_rows,
  backward_to, backward_from,
}

mem-ai_system_keys :
    (k : Text) (nodes : List GovernanceGraphNode)
    → Memᴰ k (ai_system_keys nodes) ↔ (
        (n : GovernanceGraphNode) × Memᴰ n nodes
        × (n.node_type ≡ node_ai_system)
        × (n.node_key ≡ k))
unfolding ai_system_keys
mem-ai_system_keys k nodes =
    let is_system = λ (n : GovernanceGraphNode). n.node_type == node_ai_system in
    let (to, from) =
      mem-map (λ (n : GovernanceGraphNode). n.node_key) k (keep_if is_system nodes) in
    (
      λ m.
          let (n, kept, eq) = to m in
          let (in_nodes, typed) = (mem-keep_if is_system n nodes).0 kept in
          (n, in_nodes, (eq_iff n.node_type node_ai_system).0 typed, sym eq),
      λ (n, in_nodes, typed, eq). from (
        n,
        (mem-keep_if is_system n nodes).1 (in_nodes, (eq_iff n.node_type node_ai_system).1 typed),
        sym eq,
      ),
    )

module _ (session : Session) (org_id node_id depth : ℕ) where
  -- The system has a walk of at most `depth` active rows of the organisation to the node.
  abbrev pub Upstream : Text → Type 0
  Upstream k =
      (n : GovernanceGraphNode) × OrgNode session org_id n
      × (n.node_type ≡ node_ai_system)
      × (n.node_key ≡ k)
      × ((m : ℕ) × Walk (OrgEdge session org_id) n.id m node_id × (m ≤ depth))

  search_backward-returns :
      (t : Searching (List ℕ)) × (search_backward session org_id node_id depth ≡ some t)
  unfolding search_backward
  search_backward-returns =
      rw
        (sym
          (length-map (λ (e : GovernanceGraphEdge). e.source_node_id) (org_edges session org_id)))
        (search_returns (incoming_rows session org_id) (λ e. e.source_node_id)
          (λ e ancestor_ids. ancestor_ids) add depth
          (map (λ (e : GovernanceGraphEdge). e.source_node_id) (org_edges session org_id))
          (λ u e m.
            (mem-map _ _ _).1 (
              e,
              (mem-org_edges session org_id e).1 ((mem-incoming session org_id u e).0 m).0,
              refl,
            ))
          node_id [])

  module _ (t : Searching (List ℕ))
      (found : search_backward session org_id node_id depth ≡ some t) where
    seen_backward :
        (v : ℕ)
        → Memᴰ v t.seen ↔ ((n : ℕ) × Walk (OrgEdge session org_id) v n node_id × (n ≤ depth))
    unfolding search_backward
    seen_backward v =
        let (to, from) =
          seen_exact (incoming_rows session org_id) (λ e. e.source_node_id)
            (λ e ancestor_ids. ancestor_ids) add depth (length (org_edges session org_id)) node_id
            [] t found (λ x. Unit) (λ e. ⊥) (λ e x. (inl, λ o. tt)) (λ w x. ((λ b. b), (λ b. b)))
            v in
        (
          λ m. let (n, w, le) = to m in (n, Walk-reverse (backward_to session org_id) w, le),
          λ (n, w, le). from (n, Walk-reverse (backward_from session org_id) w, le),
        )

    -- `ancestor_ids | {node_id}` is what was seen.
    candidates : (v : ℕ) → Memᴰ v (add node_id t.noted) ↔ Memᴰ v t.seen
    unfolding search_backward
    candidates =
        search_invariant (incoming_rows session org_id) (λ e. e.source_node_id)
          (λ e ancestor_ids. ancestor_ids) add depth (length (org_edges session org_id)) node_id []
          t found (λ seen x. (v : ℕ) → Memᴰ v (add node_id x) ↔ Memᴰ v seen) (λ seen x e same. same)
          (λ seen x w same v. ground (
            arith,
            same v,
            mem-add v node_id x,
            mem-add v node_id (add w x),
            mem-add v w x,
            mem-snoc v w seen,
          ))
          (λ v. (
            λ m. elim ((mem-add v node_id []).0 m) [
              | inl never ↦ absurd (Memᴰ.not-nil never)
              | inr e ↦ Memᴰ.head e
            ],
            λ m. (mem-add v node_id []).1 (inr (Memᴰ.eq_of_singleton m)),
          ))

-- Where node ids are unique, find_upstream_ai_systems returns, and its ids are the keys of the
-- organisation's systems, not archived, from which a walk of at most `max_depth` of its active
-- rows leads to the node.
pub find_upstream_ai_systems-exact :
    (session : Session) (org_id node_id : ℕ) (max_depth : Option ℕ)
    → UniqueIds session
    → (keys : List Text) × (find_upstream_ai_systems session org_id node_id max_depth ≡ some keys)
      × ((k : Text) → Memᴰ k keys ↔ Upstream session org_id node_id (depth_or_default max_depth) k)
unfolding find_upstream_ai_systems
find_upstream_ai_systems-exact session org_id node_id max_depth unique =
    let depth = depth_or_default max_depth in
    let (t, found) = search_backward-returns session org_id node_id depth in
    let seen = seen_backward session org_id node_id depth t found in
    let same = candidates session org_id node_id depth t found in
    let ids = add node_id t.noted in
    let nodes = nodes_of (load_org_graph session org_id).nodes_by_id ids in
    let rows = λ (n : GovernanceGraphNode). mem-nodes_by_id session org_id ids n unique in
    (
      sorted text_le (ai_system_keys nodes),
      rw found refl,
      λ k. (
        λ m.
            let (n, in_nodes, typed, eq) =
              (mem-ai_system_keys k nodes).0 ((mem-sorted text_le k _).0 m) in
            let (row, in_ids) = (rows n).0 in_nodes in
            (n, row, typed, eq, (seen n.id).0 ((same n.id).0 in_ids)),
        λ (n, row, typed, eq, walked). (mem-sorted text_le k _).1 (
            (mem-ai_system_keys k nodes).1
              (n, (rows n).1 (row, (same n.id).1 ((seen n.id).1 walked)), typed, eq)),
      ),
    )
