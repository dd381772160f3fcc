-- ===== src/KnowledgeRouter/Organisation.antt =====
-- core-side-patch/reference_traversal_cte.py: the traversal reads the edges of every organisation, and
-- stays within one where edges join nodes of their own.
use p2_ai_knowledge_graph_fo.Base.{ℕ, ◌≡◌, ap, sym, ◌∙◌, true, Memᴰ, nat_eq, list_eq}
use p2_ai_knowledge_graph_fo.Paths.{Walk, here, step}
use p2_ai_knowledge_graph_fo.Tables.{Session, GovernanceGraphNode, GovernanceGraphEdge}
use p2_ai_knowledge_graph_fo.Reference.Step.{CoreEdge}
use p2_ai_knowledge_graph_fo.Ingest.{edge_entries}
use p2_ai_knowledge_graph_fo.GraphQuery.OrgGraph.{OrgEdge, UniqueIds}
use p2_ai_knowledge_graph_fo.Ingest.Entries.{Row, CoreEdge-iff}
use p2_ai_knowledge_graph_fo.Tables.Upsert.Single.{same_of_id}

-- Some row of the organisation has this id.
abbrev pub InOrg : Session → ℕ → ℕ → Type 0
InOrg session org_id id =
    (n : GovernanceGraphNode) × Memᴰ n session.nodes × (n.id ≡ id) × (n.org_id ≡ org_id)

-- An active edge joins two nodes of its own organisation.
abbrev pub EdgesWithinOrg : Session → Type 0
EdgesWithinOrg session =
    (e : GovernanceGraphEdge)
    → Memᴰ e session.edges
    → e.is_active ≡ true
    → InOrg session e.org_id e.source_node_id × InOrg session e.org_id e.target_node_id

module _ (session : Session) (org_id : ℕ) (unique : UniqueIds session)
    (within : EdgesWithinOrg session) where
  -- A row out of an organisation's node is the organisation's, and leads to one of its nodes.
  stays :
      (u v : ℕ)
      → InOrg session org_id u
      → Row session u v
      → OrgEdge session org_id u v × InOrg session org_id v
  stays u v (n, in_nodes, at_u, of_org) (e, in_edges, active, starts, ends) =
      let ((m, in_nodes', at_source, same_org), (k, in_nodes'', at_target, same_org')) =
        within e in_edges active in
      let same =
        same_of_id (λ (k : GovernanceGraphNode). k.id) session.nodes n m unique in_nodes in_nodes'
          (at_u ∙ sym (at_source ∙ starts)) in
      let org : e.org_id ≡ org_id =
        sym same_org ∙ sym (ap (λ (j : GovernanceGraphNode). j.org_id) same) ∙ of_org in
      (
        (e, (in_edges, org, active), starts, ends),
        (k, in_nodes'', at_target ∙ ends, same_org' ∙ org),
      )

  pub Walk-stays :
      {u v n : ℕ}
      → InOrg session org_id u
      → Walk (CoreEdge (edge_entries session)) u n v
      → Walk (OrgEdge session org_id) u n v × InOrg session org_id v
  Walk-stays at here = (here, at)
  Walk-stays at (step {u = u} {v = v} w e) =
      let (w', at') = Walk-stays at w in
      let (e', at'') = stays u v at' ((CoreEdge-iff session u v).0 e) in (step w' e', at'')
