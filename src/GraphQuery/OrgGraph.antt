-- ===== src/GraphQuery/OrgGraph.antt =====
-- core-side-patch/graph_query.py: what _load_org_graph loads, by the rows of the tables.
use mathlib.Core.List.Memᴰ
use p2_ai_knowledge_graph_fo.Base.{
  ℕ, ◌≡◌, refl, ap, sym, subst, ◌↔◌, ◌⊎◌, ⊎_elim, inl, inr, Bool, true, false, not, ◌&&◌, List, [],
  ◌∷◌, map, Option, none, some, lookup, group_of, group_of-grouped, lookup-dict_of, keep_if,
  mem-keep_if, Memᴰ, Distinct, arith, ◌==◌, eq_iff, nat_eq, Bool-cases, Dict, some-injective,
}
use p2_ai_knowledge_graph_fo.Tables.{Session, GovernanceGraphNode, GovernanceGraphEdge}
use p2_ai_knowledge_graph_fo.BreadthFirst.Visit.{FollowedEdge}
use p2_ai_knowledge_graph_fo.GraphQuery.Search.{
  load_org_graph, org_nodes, org_edges, nodes_of, if_found,
}

-- A row of the organisation that is not archived.
abbrev pub OrgNode : Session → ℕ → GovernanceGraphNode → Type 0
OrgNode session org_id n = Memᴰ n session.nodes × (n.org_id ≡ org_id) × (n.archived ≡ false)

-- An active row of the organisation.
abbrev pub OrgRow : Session → ℕ → GovernanceGraphEdge → Type 0
OrgRow session org_id e = Memᴰ e session.edges × (e.org_id ≡ org_id) × (e.is_active ≡ true)

-- Such a row from `u` to `v`.
abbrev pub OrgEdge : Session → ℕ → ℕ → ℕ → Type 0
OrgEdge session org_id u v =
    (e : GovernanceGraphEdge) × OrgRow session org_id e
    × (e.source_node_id ≡ u)
    × (e.target_node_id ≡ v)

-- The primary key of governance_graph_nodes.
abbrev pub UniqueIds : Session → Type 0
UniqueIds session = Distinct (map (λ (n : GovernanceGraphNode). n.id) session.nodes)

pub mem-org_edges :
    (session : Session) (org_id : ℕ) (e : GovernanceGraphEdge)
    → Memᴰ e (org_edges session org_id) ↔ OrgRow session org_id e
unfolding org_edges
mem-org_edges session org_id e = ground (
  arith,
  mem-keep_if (λ (d : GovernanceGraphEdge). (d.org_id == org_id) && d.is_active) e session.edges,
  eq_iff e.org_id org_id,
)

pub mem-org_nodes :
    (session : Session) (org_id : ℕ) (n : GovernanceGraphNode)
    → Memᴰ n (org_nodes session org_id) ↔ OrgNode session org_id n
unfolding org_nodes
mem-org_nodes session org_id n = ground (
  arith,
  mem-keep_if (λ (m : GovernanceGraphNode). (m.org_id == org_id) && not m.archived) n session.nodes,
  eq_iff n.org_id org_id,
)

pub mem-outgoing :
    (session : Session) (org_id id : ℕ) (e : GovernanceGraphEdge)
    → Memᴰ e (group_of id (load_org_graph session org_id).outgoing)
      ↔ (OrgRow session org_id e × (e.source_node_id ≡ id))
unfolding load_org_graph
mem-outgoing session org_id id e =
    rw
      (group_of-grouped (λ (d : GovernanceGraphEdge). d.source_node_id) id
        (org_edges session org_id))
      (ground (
        arith,
        mem-keep_if (λ (d : GovernanceGraphEdge). d.source_node_id == id) e
            (org_edges session org_id),
        mem-org_edges session org_id e,
        eq_iff e.source_node_id id,
      ))

pub mem-incoming :
    (session : Session) (org_id id : ℕ) (e : GovernanceGraphEdge)
    → Memᴰ e (group_of id (load_org_graph session org_id).incoming)
      ↔ (OrgRow session org_id e × (e.target_node_id ≡ id))
unfolding load_org_graph
mem-incoming session org_id id e =
    rw
      (group_of-grouped (λ (d : GovernanceGraphEdge). d.target_node_id) id
        (org_edges session org_id))
      (ground (
        arith,
        mem-keep_if (λ (d : GovernanceGraphEdge). d.target_node_id == id) e
            (org_edges session org_id),
        mem-org_edges session org_id e,
        eq_iff e.target_node_id id,
      ))

module _ (session : Session) (org_id : ℕ) where
  abbrev pub outgoing_rows : ℕ → List GovernanceGraphEdge
  outgoing_rows id = group_of id (load_org_graph session org_id).outgoing

  abbrev pub incoming_rows : ℕ → List GovernanceGraphEdge
  incoming_rows id = group_of id (load_org_graph session org_id).incoming

  pub forward_to :
      (u v : ℕ)
      → FollowedEdge outgoing_rows (λ e. e.target_node_id) u v
      → OrgEdge session org_id u v
  forward_to u v (e, m, ends) =
      let (row, starts) = (mem-outgoing session org_id u e).0 m in (e, row, starts, ends)

  pub forward_from :
      (u v : ℕ)
      → OrgEdge session org_id u v
      → FollowedEdge outgoing_rows (λ e. e.target_node_id) u v
  forward_from u v (e, row, starts, ends) =
      (e, (mem-outgoing session org_id u e).1 (row, starts), ends)

  pub backward_to :
      (u v : ℕ)
      → FollowedEdge incoming_rows (λ e. e.source_node_id) u v
      → OrgEdge session org_id v u
  backward_to u v (e, m, starts) =
      let (row, ends) = (mem-incoming session org_id u e).0 m in (e, row, starts, ends)

  pub backward_from :
      (u v : ℕ)
      → OrgEdge session org_id u v
      → FollowedEdge incoming_rows (λ e. e.source_node_id) v u
  backward_from u v (e, row, starts, ends) =
      (e, (mem-incoming session org_id v e).1 (row, ends), starts)

mem-map_of_kept :
    {A : Type 0} (f : A → ℕ) (p : A → Bool) (k : ℕ) (xs : List A)
    → Memᴰ k (map f (keep_if p xs))
    → Memᴰ k (map f xs)
mem-map_of_kept f p k [] m = m
mem-map_of_kept f p k (x ∷ xs) m = elim (Bool-cases (p x)) [
  | inl kept ↦ elim (Memᴰ.cases_cons (rw kept at m)) [
    | inl e ↦ Memᴰ.head e
    | inr r ↦ Memᴰ.tail (mem-map_of_kept f p k xs r)
  ]
  | inr dropped ↦ Memᴰ.tail (mem-map_of_kept f p k xs (rw dropped at m))
]

Distinct-keep_if :
    {A : Type 0} (f : A → ℕ) (p : A → Bool) (xs : List A)
    → Distinct (map f xs)
    → Distinct (map f (keep_if p xs))
Distinct-keep_if f p [] d = d
Distinct-keep_if f p (x ∷ xs) d = elim (Bool-cases (p x)) [
  | inl kept ↦ rw kept (λ m. d.0 (mem-map_of_kept f p (f x) xs m), Distinct-keep_if f p xs d.1)
  | inr dropped ↦ rw dropped (Distinct-keep_if f p xs d.1)
]

mem-if_found :
    (o : Option GovernanceGraphNode) (rest : List GovernanceGraphNode) (n : GovernanceGraphNode)
    → Memᴰ n (if_found o rest) ↔ ((o ≡ some n) ⊎ Memᴰ n rest)
unfolding if_found
mem-if_found none rest n = (inr, ⊎_elim (λ e. cc) (λ m. m))
mem-if_found (some k) rest n = (
  λ m. ⊎_elim (λ e. inl (ap some (sym e))) inr (Memᴰ.cases_cons m),
  ⊎_elim (λ e. Memᴰ.head (sym (some-injective _ _ e))) Memᴰ.tail,
)

mem-nodes_of :
    (d : Dict ℕ GovernanceGraphNode) (ids : List ℕ) (n : GovernanceGraphNode)
    → Memᴰ n (nodes_of d ids) ↔ ((id : ℕ) × Memᴰ id ids × (lookup id d ≡ some n))
unfolding nodes_of
mem-nodes_of d [] n = (λ m. absurd (Memᴰ.not-nil m), λ t. absurd (Memᴰ.not-nil t.1))
mem-nodes_of d (id ∷ ids) n =
    let (to, from) = mem-nodes_of d ids n in
    let (first_to, first_from) = mem-if_found (lookup id d) (nodes_of d ids) n in
    (
      λ m. elim (first_to m) [
        | inl found ↦ (id, Memᴰ.head refl, found)
        | inr later ↦ let (i, in_ids, found) = to later in (i, Memᴰ.tail in_ids, found)
      ],
      λ (i, in_ids, found). elim (Memᴰ.cases_cons in_ids) [
        | inl e ↦ first_from (inl (subst (λ j. lookup j d ≡ some n) e found))
        | inr later ↦ first_from (inr (from (i, later, found)))
      ],
    )

-- The rows that are found for some ids are the organisation's rows with these ids.
pub mem-nodes_by_id :
    (session : Session) (org_id : ℕ) (ids : List ℕ) (n : GovernanceGraphNode)
    → UniqueIds session
    → Memᴰ n (nodes_of (load_org_graph session org_id).nodes_by_id ids)
      ↔ (OrgNode session org_id n × Memᴰ n.id ids)
unfolding load_org_graph org_nodes
mem-nodes_by_id session org_id ids n unique =
    let kept = λ (m : GovernanceGraphNode). (m.org_id == org_id) && not m.archived in
    let by_id = λ (id : ℕ).
      lookup-dict_of (λ (m : GovernanceGraphNode). m.id) (org_nodes session org_id) id n
        (Distinct-keep_if (λ (m : GovernanceGraphNode). m.id) kept session.nodes unique) in
    let (to, from) = mem-nodes_of (load_org_graph session org_id).nodes_by_id ids n in
    let (to_row, from_row) = mem-org_nodes session org_id n in
    (
      λ m.
          let (id, in_ids, found) = to m in
          let (row, same) = (by_id id).0 found in
          (to_row row, subst (λ i. Memᴰ i ids) (sym same) in_ids),
      λ (row, in_ids). from (n.id, in_ids, (by_id n.id).1 (from_row row, refl)),
    )
