-- ===== src/GraphQuery/Subgraph.antt =====
-- core-side-patch/graph_query.py: get_subgraph shows what forward walks reach.
use mathlib.Core.List.Memᴰ
use p2_ai_knowledge_graph_fo.Base.{
  ℕ, ◌≤◌, ◌<◌, ◌≡◌, refl, sym, subst, ◌↔◌, ◌⊎◌, inl, inr, ⊎_elim, List, [], ◌∷◌, map, Option, some,
  Text, put, length, length-map, Memᴰ, mem-map, mem-cons, arith, eq_iff, eq-cases, nat_eq, list_eq,
  pair_eq,
}
use p2_ai_knowledge_graph_fo.Paths.{Walk, Walk-map}
use p2_ai_knowledge_graph_fo.Tables.{
  Session, GovernanceGraphNode, GovernanceGraphEdge, resolve_ai_system_node_id,
}
use p2_ai_knowledge_graph_fo.GraphQuery.{node_to_dict}
use p2_ai_knowledge_graph_fo.BreadthFirst.{Searching}
use p2_ai_knowledge_graph_fo.BreadthFirst.Ends.{search_returns}
use p2_ai_knowledge_graph_fo.BreadthFirst.Visit.{FollowedEdge}
use p2_ai_knowledge_graph_fo.BreadthFirst.Exact.{search_invariant, seen_exact, noted_exact}
use p2_ai_knowledge_graph_fo.GraphQuery.Search.{
  EdgeDict, NodeDict, edge_to_dict, visit_edge, search_forward, subgraph, subgraph_from,
  get_subgraph, depth_or_default, load_org_graph, nodes_of, org_edges,
}
use p2_ai_knowledge_graph_fo.GraphQuery.OrgGraph.{
  OrgNode, OrgRow, OrgEdge, UniqueIds, mem-nodes_by_id, mem-org_edges, mem-outgoing, outgoing_rows,
  forward_to, forward_from,
}

abbrev Noted : Type 0
Noted = List (EdgeDict × GovernanceGraphEdge)

keys-put :
    (k j : EdgeDict) (e : GovernanceGraphEdge) (d : Noted)
    → Memᴰ j (map (λ entry. entry.0) (put k e d)) ↔ (Memᴰ j (map (λ entry. entry.0) d) ⊎ (j ≡ k))
unfolding put
keys-put k j e [] =
    (λ m. inr (Memᴰ.eq_of_singleton m), ⊎_elim (λ m. absurd (Memᴰ.not-nil m)) Memᴰ.head)
keys-put k j e ((i, f) ∷ d) = elim (eq-cases i k) [
  | inl same ↦ rw (same, (eq_iff k k).1 refl) (inl, ⊎_elim (λ m. m) Memᴰ.head)
  | inr other ↦ rw other (
      ground (
        arith,
        keys-put k j e d,
        mem-cons j i (map (λ (entry : EdgeDict × GovernanceGraphEdge). entry.0) d),
        mem-cons j i (map (λ (entry : EdgeDict × GovernanceGraphEdge). entry.0) (put k e d)),
      ))
]

-- Each edge is kept under what its dict shows.
abbrev Keyed : Noted → Type 0
Keyed d = (k : EdgeDict) (e : GovernanceGraphEdge) → Memᴰ (k, e) d → k ≡ edge_to_dict e

mem-put :
    (k : EdgeDict) (e : GovernanceGraphEdge) (d : Noted) (entry : EdgeDict × GovernanceGraphEdge)
    → Memᴰ entry (put k e d)
    → Memᴰ entry d ⊎ (entry ≡ (k, e))
unfolding put
mem-put k e [] entry m = inr (Memᴰ.eq_of_singleton m)
mem-put k e ((i, f) ∷ d) entry m = elim (eq-cases i k) [
  | inl same ↦ elim (Memᴰ.cases_cons (rw (same, (eq_iff k k).1 refl) at m)) [
    | inl e ↦ inr e
    | inr old ↦ inl (Memᴰ.tail old)
  ]
  | inr other ↦ elim (Memᴰ.cases_cons (rw other at m)) [
    | inl e ↦ inl (Memᴰ.head e)
    | inr later ↦ ⊎_elim (λ old. inl (Memᴰ.tail old)) inr (mem-put k e d entry later)
  ]
]

shown : (d : Noted) → Keyed d → map (λ entry. edge_to_dict entry.1) d ≡ map (λ entry. entry.0) d
shown [] keyed = refl
shown ((k, e) ∷ d) keyed =
    cc (keyed k e (Memᴰ.head refl), shown d (λ j f m. keyed j f (Memᴰ.tail m)))

module _ (session : Session) (org_id node_id depth : ℕ) where
  abbrev Forward : ℕ → ℕ → Type 0
  Forward = FollowedEdge (outgoing_rows session org_id) (λ e. e.target_node_id)

  -- A walk of at most `depth` active rows of the organisation leads from the one id to the other.
  abbrev pub Within : ℕ → Type 0
  Within v = (n : ℕ) × Walk (OrgEdge session org_id) node_id n v × (n ≤ depth)

  -- The row starts where a walk of fewer rows leads.
  abbrev pub Followed : GovernanceGraphEdge → Type 0
  Followed e =
      OrgRow session org_id e
      × ((n : ℕ) × Walk (OrgEdge session org_id) node_id n e.source_node_id × (n < depth))

  search_forward-returns :
      (t : Searching Noted) × (search_forward session org_id node_id depth ≡ some t)
  unfolding search_forward
  search_forward-returns =
      rw
        (sym
          (length-map (λ (e : GovernanceGraphEdge). e.target_node_id) (org_edges session org_id)))
        (search_returns (outgoing_rows session org_id) (λ e. e.target_node_id) visit_edge
          (λ id visited_edges. visited_edges) depth
          (map (λ (e : GovernanceGraphEdge). e.target_node_id) (org_edges session org_id))
          (λ u e m.
            (mem-map _ _ _).1 (
              e,
              (mem-org_edges session org_id e).1 ((mem-outgoing session org_id u e).0 m).0,
              refl,
            ))
          node_id [])

  module _ (t : Searching Noted)
      (found : search_forward session org_id node_id depth ≡ some t) where
    seen_forward : (v : ℕ) → Memᴰ v t.seen ↔ Within v
    unfolding search_forward
    seen_forward v =
        let (to, from) =
          seen_exact (outgoing_rows session org_id) (λ e. e.target_node_id) visit_edge
            (λ id visited_edges. visited_edges) depth (length (org_edges session org_id)) node_id []
            t found (λ x. ⊥) (λ e. ⊥) (λ e x. (inl, ⊎_elim (λ b. b) (λ b. b)))
            (λ w x. ((λ b. b), (λ b. b))) v in
        (
          λ m. let (n, w, le) = to m in (n, Walk-map (forward_to session org_id) w, le),
          λ (n, w, le). from (n, Walk-map (forward_from session org_id) w, le),
        )

    noted-Keyed : Keyed t.noted
    unfolding search_forward visit_edge edge_to_dict
    noted-Keyed =
        search_invariant (outgoing_rows session org_id) (λ e. e.target_node_id) visit_edge
          (λ id visited_edges. visited_edges) depth (length (org_edges session org_id)) node_id [] t
          found (λ seen x. Keyed x)
          (λ seen x e keyed k f m. elim (mem-put (edge_to_dict e) e x (k, f) m) [
            | inl old ↦ keyed k f old
            | inr eq ↦ cc eq
          ])
          (λ seen x v keyed. keyed) (λ k e m. absurd (Memᴰ.not-nil m))

    keys_forward :
        (d : EdgeDict)
        → Memᴰ d (map (λ entry. entry.0) t.noted)
          ↔ ((e : GovernanceGraphEdge) × Followed e × (d ≡ edge_to_dict e))
    unfolding search_forward visit_edge edge_to_dict
    keys_forward d =
        let (to, from) =
          noted_exact (outgoing_rows session org_id) (λ e. e.target_node_id) visit_edge
            (λ id visited_edges. visited_edges) depth (length (org_edges session org_id)) node_id []
            t found (λ x. Memᴰ d (map (λ entry. entry.0) x)) (λ e. d ≡ edge_to_dict e)
            (λ e x. keys-put (edge_to_dict e) d e x) (λ w x. ((λ m. m), (λ m. m))) in
        (
          λ m. elim (to m) [
            | inl never ↦ absurd (Memᴰ.not-nil never)
            | inr (u, n, w, lt, (e, in_rows, eq)) ↦
                let (row, starts) = (mem-outgoing session org_id u e).0 in_rows in
                (
                  e,
                  (
                    row,
                    (
                      n,
                      subst (Walk (OrgEdge session org_id) node_id n) (sym starts)
                          (Walk-map (forward_to session org_id) w),
                      lt,
                    ),
                  ),
                  eq,
                )
          ],
          λ (e, (row, (n, w, lt)), eq). from (
              inr (
                e.source_node_id,
                n,
                Walk-map (forward_from session org_id) w,
                lt,
                (e, (mem-outgoing session org_id e.source_node_id e).1 (row, refl), eq),
              )),
        )

-- Let node ids be unique, and let the query find one row for the system. Then get_subgraph returns:
-- the nodes are the dicts of the organisation's rows that are not archived and that a walk of at most
-- `max_depth` active rows reaches, and the edges are the dicts of the active rows that start where
-- a walk of fewer rows leads.
pub get_subgraph-exact :
    (session : Session) (org_id : ℕ) (ai_system_id : Text) (max_depth : Option ℕ) (node_id : ℕ)
    → UniqueIds session
    → resolve_ai_system_node_id session org_id ai_system_id ≡ some (some node_id)
    → (nodes : List NodeDict) × (edges : List EdgeDict) × (get_subgraph session org_id ai_system_id
          max_depth
        ≡ some (subgraph nodes edges))
      × ((d : NodeDict)
          → Memᴰ d nodes ↔ (
              (n : GovernanceGraphNode) × OrgNode session org_id n
              × Within session org_id node_id (depth_or_default max_depth) n.id
              × (d ≡ node_to_dict n)))
      × ((d : EdgeDict)
          → Memᴰ d edges ↔ (
              (e : GovernanceGraphEdge) × Followed session org_id node_id
                (depth_or_default max_depth)
                e
              × (d ≡ edge_to_dict e)))
unfolding get_subgraph subgraph_from
get_subgraph-exact session org_id ai_system_id max_depth node_id unique resolved =
    let depth = depth_or_default max_depth in
    let (t, found) = search_forward-returns session org_id node_id depth in
    let rows = λ (n : GovernanceGraphNode). mem-nodes_by_id session org_id t.seen n unique in
    let seen = seen_forward session org_id node_id depth t found in
    (
      map node_to_dict (nodes_of (load_org_graph session org_id).nodes_by_id t.seen),
      map (λ entry. edge_to_dict entry.1) t.noted,
      rw (resolved, found) refl,
      λ d. (
        λ m.
            let (n, in_rows, eq) = (mem-map node_to_dict d _).0 m in
            let (row, in_seen) = (rows n).0 in_rows in (n, row, (seen n.id).0 in_seen, eq),
        λ (n, row, within, eq).
            (mem-map node_to_dict d _).1 (n, (rows n).1 (row, (seen n.id).1 within), eq),
      ),
      λ d.
          rw (shown t.noted (noted-Keyed session org_id node_id depth t found))
            (keys_forward session org_id node_id depth t found d),
    )
