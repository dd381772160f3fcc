-- ===== src/KnowledgeRouter/Edges.antt =====
-- core-side-patch/routers/patent_knowledge_graph_p2.py: a manual edge, and the systems whose
-- derivation it can change.
use p2_ai_knowledge_graph_fo.Base.{
  ℕ, ◌≤◌, ◌≡◌, refl, ap, sym, ◌∙◌, subst, ◌↔◌, inl, inr, not, ◌&&◌, List, [], ◌∷◌, ◌++◌, some,
  some-injective, Text, mem-keep_if, mem-snoc, Memᴰ, SameMembers, arith, ◌==◌, eq_iff, nat_eq,
  list_eq,
}
use p2_ai_knowledge_graph_fo.Paths.{Walk, here, step, Walk-map}
use p2_ai_knowledge_graph_fo.Schema.{node_ai_system, node_obligation, node_control_type}
use p2_ai_knowledge_graph_fo.Tables.{
  Session, GovernanceGraphNode, GovernanceGraphEdge, get_node, one_or_none,
}
use p2_ai_knowledge_graph_fo.Reference.{ReferenceDerived, node_lookup}
use p2_ai_knowledge_graph_fo.Reference.Step.{CoreEdge}
use p2_ai_knowledge_graph_fo.Reference.Correct.{CoreDerived, NotTerminal, reference-agrees}
use p2_ai_knowledge_graph_fo.Ingest.{node_entries, edge_entries, derive_obligations_reference}
use p2_ai_knowledge_graph_fo.GraphQuery.OrgGraph.{OrgNode, OrgEdge, UniqueIds}
use p2_ai_knowledge_graph_fo.KnowledgeRouter.Organisation.{InOrg, EdgesWithinOrg, Walk-stays}
use p2_ai_knowledge_graph_fo.Ingest.Entries.{Row, CoreEdge-iff, node_lookup-found}

one_or_none-mem : {A : Type 0} (xs : List A) (a : A) → one_or_none xs ≡ some (some a) → Memᴰ a xs
unfolding one_or_none
one_or_none-mem [] a h = absurd cc
one_or_none-mem (x ∷ []) a h = Memᴰ.head (sym (some-injective _ _ (some-injective _ _ h)))
one_or_none-mem (x ∷ y ∷ xs) a h = absurd cc

pub get_node-InOrg :
    (session : Session) (org_id id : ℕ) (n : GovernanceGraphNode)
    → get_node session org_id id ≡ some (some n)
    → InOrg session org_id id
unfolding get_node
get_node-InOrg session org_id id n h =
    let (in_nodes, passes) =
      (mem-keep_if
          (λ (m : GovernanceGraphNode). (m.id == id) && (m.org_id == org_id) && not m.archived) n
          session.nodes).0
        (one_or_none-mem _ n h) in
    (
      n,
      in_nodes,
      ground (arith, passes, eq_iff n.id id),
      ground (arith, passes, eq_iff n.org_id org_id, eq_iff n.id id),
    )

-- A system is no obligation and no control type.
system-NotTerminal :
    (session : Session) (n : GovernanceGraphNode)
    → UniqueIds session
    → Memᴰ n session.nodes
    → n.node_type ≡ node_ai_system
    → NotTerminal (node_lookup (node_entries session) n.id)
unfolding node_entries
system-NotTerminal session n unique in_nodes typed =
    rw (node_lookup-found session.nodes n unique in_nodes) (rw typed ((λ e. cc), (λ e. cc)))

module _ (session : Session) (org_id : ℕ) (edge : GovernanceGraphEdge) (next_id : ℕ) where
  -- The database with one edge more.
  abbrev pub with_edge : Session
  with_edge = record session { edges = session.edges ++ edge ∷ []; next_id = next_id }

  pub with_edge-EdgesWithinOrg :
      EdgesWithinOrg session
      → InOrg session edge.org_id edge.source_node_id
      → InOrg session edge.org_id edge.target_node_id
      → EdgesWithinOrg with_edge
  with_edge-EdgesWithinOrg within source target e m active =
      elim ((mem-snoc e edge session.edges).0 m) [
        | inl old ↦ within e old active
        | inr new ↦ rw new (source, target)
      ]

  Row-still : (u v : ℕ) → Row session u v → Row with_edge u v
  Row-still u v (e, m, active, starts, ends) =
      (e, (mem-snoc e edge session.edges).1 (inl m), active, starts, ends)

  -- From a node without a walk to the new edge no walk uses it.
  Walk-before :
      {u v n : ℕ} (bound : ℕ)
      → UniqueIds session
      → EdgesWithinOrg with_edge
      → InOrg session org_id u
      → ¬ ((m : ℕ) × Walk (OrgEdge with_edge org_id) u m edge.source_node_id × (m ≤ bound))
      → n ≤ bound
      → Walk (CoreEdge (edge_entries with_edge)) u n v
      → Walk (CoreEdge (edge_entries session)) u n v
  Walk-before bound unique within at never le here = here
  Walk-before bound unique within at never le (step {n = n} {u = w} {v = v} before last) =
      let (e, m, active, starts, ends) = (CoreEdge-iff with_edge w v).0 last in
      elim ((mem-snoc e edge session.edges).0 m) [
        | inl old ↦
            step (Walk-before bound unique within at never (omega arith) before)
              ((CoreEdge-iff session w v).1 (e, old, active, starts, ends))
        | inr new ↦
            let (walk, _) = Walk-stays with_edge org_id unique within at before in
            let at_source : w ≡ edge.source_node_id =
              sym starts ∙ ap (λ (d : GovernanceGraphEdge). d.source_node_id) new in
            absurd
              (never (n, subst (Walk (OrgEdge with_edge org_id) _ n) at_source walk, omega arith))
      ]

  Walk-after :
      {u v n : ℕ}
      → Walk (CoreEdge (edge_entries session)) u n v
      → Walk (CoreEdge (edge_entries with_edge)) u n v
  Walk-after =
      Walk-map
        (λ u v e. (CoreEdge-iff with_edge u v).1 (Row-still u v ((CoreEdge-iff session u v).0 e)))

  abbrev Never : ℕ → ℕ → Type 0
  Never u bound =
      ¬ ((m : ℕ) × Walk (OrgEdge with_edge org_id) u m edge.source_node_id × (m ≤ bound))

  CoreDerived-same :
      (u bound : ℕ) (t k : Text)
      → UniqueIds session
      → EdgesWithinOrg with_edge
      → InOrg session org_id u
      → Never u bound
      → CoreDerived (node_entries session) (edge_entries session) bound u t k
        ↔ CoreDerived (node_entries with_edge) (edge_entries with_edge) bound u t k
  unfolding node_entries
  CoreDerived-same u bound t k unique within at never = (
    λ (v, n, w, le, named). (v, n, Walk-after w, le, named),
    λ (v, n, w, le, named).
        (v, n, Walk-before bound unique within at never (omega arith) w, le, named),
  )

  -- What core derives from such a system is what it derived before.
  pub same_derivation :
      (n : GovernanceGraphNode) (bound : ℕ)
      → UniqueIds session
      → EdgesWithinOrg with_edge
      → OrgNode session org_id n
      → n.node_type ≡ node_ai_system
      → Never n.id bound
      → (r : ReferenceDerived) × (r' : ReferenceDerived) × (derive_obligations_reference session
            n.id bound
          ≡ some r)
        × (derive_obligations_reference with_edge n.id bound ≡ some r')
        × SameMembers r.derived_obligations r'.derived_obligations
        × SameMembers r.derived_controls r'.derived_controls
  unfolding derive_obligations_reference
  same_derivation n bound unique within (in_nodes, of_org, _) typed never =
      let (r, ends, obligations, controls) =
        reference-agrees (node_entries session) (edge_entries session) n.id bound
          (system-NotTerminal session n unique in_nodes typed) in
      let (r', ends', obligations', controls') =
        reference-agrees (node_entries with_edge) (edge_entries with_edge) n.id bound
          (system-NotTerminal with_edge n unique in_nodes typed) in
      let same = λ (t k : Text).
        CoreDerived-same n.id bound t k unique within (n, in_nodes, refl, of_org) never in
      (
        r,
        r',
        ends,
        ends',
        λ k. (
          λ m. (obligations' k).1 ((same node_obligation k).0 ((obligations k).0 m)),
          λ m. (obligations k).1 ((same node_obligation k).1 ((obligations' k).0 m)),
        ),
        λ k. (
          λ m. (controls' k).1 ((same node_control_type k).0 ((controls k).0 m)),
          λ m. (controls k).1 ((same node_control_type k).1 ((controls' k).0 m)),
        ),
      )
