-- ===== src/GraphQuery/Needs.antt =====
-- core-side-patch/graph_query.py, `find_coverage_gaps`: what obligations need, against the rows of the tables.
use mathlib.Core.List.Memᴰ
use p2_ai_knowledge_graph_fo.Base.{
  ℕ, ◌≡◌, refl, sym, ap, subst, ◌∙◌, ◌↔◌, ◌⊎◌, inl, inr, Bool, true, ◌&&◌, List, [], ◌∷◌, map,
  Option, none, some, some-injective, Text, Memᴰ, Distinct, mem-cons, mem-map, ◌==◌, eq_iff, nat_eq,
  list_eq, arith, Bool-cases, mem-to_set,
}
use p2_ai_knowledge_graph_fo.Schema.{edge_obligation_needs}
use p2_ai_knowledge_graph_fo.Tables.{Session, GovernanceGraphNode, GovernanceGraphEdge}
use p2_ai_knowledge_graph_fo.GraphQuery.{key_of_id, needed_by, needs, obligation_needs}

-- A node row of this id and key.
abbrev pub HasKey : Session → ℕ → Text → Type 0
HasKey session i k =
    (n : GovernanceGraphNode) × Memᴰ n session.nodes × (n.id ≡ i) × (n.node_key ≡ k)

-- An active edge row of the organisation says that the obligation needs the control type.
abbrev pub NeedsRow : Session → ℕ → Text → Text → Type 0
NeedsRow session org_id o c =
    (e : GovernanceGraphEdge) × Memᴰ e session.edges
    × (e.org_id ≡ org_id)
    × (e.edge_type ≡ edge_obligation_needs)
    × (e.is_active ≡ true)
    × HasKey session e.source_node_id o
    × HasKey session e.target_node_id c

key_of_id-some :
    (nodes : List GovernanceGraphNode) (i : ℕ) (k : Text)
    → key_of_id nodes i ≡ some k
    → (n : GovernanceGraphNode) × Memᴰ n nodes × (n.id ≡ i) × (n.node_key ≡ k)
unfolding key_of_id
key_of_id-some [] i k h = cc h
key_of_id-some (n ∷ nodes) i k h = elim (Bool-cases (n.id == i)) [
  | inl same ↦ (n, Memᴰ.head refl, (eq_iff n.id i).0 same, some-injective _ _ (rw same at h))
  | inr other ↦
      let (m, at, same, keyed) = key_of_id-some nodes i k (rw other at h) in
      (m, Memᴰ.tail at, same, keyed)
]

key_of_id-row :
    (nodes : List GovernanceGraphNode) (n : GovernanceGraphNode)
    → Distinct (map (λ m. m.id) nodes)
    → Memᴰ n nodes
    → key_of_id nodes n.id ≡ some n.node_key
unfolding key_of_id
key_of_id-row [] n d m = absurd (Memᴰ.not-nil m)
key_of_id-row (k ∷ nodes) n d m = elim (Bool-cases (k.id == n.id)) [
  | inl same ↦ elim (Memᴰ.cases_cons m) [
    | inl e ↦ rw same (ap (λ (j : GovernanceGraphNode). some j.node_key) (sym e))
    | inr later ↦ absurd (
        d.0 (
          subst (λ i. Memᴰ i (map (λ m. m.id) nodes)) (sym ((eq_iff k.id n.id).0 same))
            ((mem-map (λ m. m.id) n.id nodes).1 (n, later, refl))))
  ]
  | inr other ↦ elim (Memᴰ.cases_cons m) [
    | inl e ↦ cc (other, (eq_iff k.id n.id).1 (ap (λ (j : GovernanceGraphNode). j.id) (sym e)))
    | inr later ↦ rw other (key_of_id-row nodes n d.1 later)
  ]
]

some_iff : (a b : Text) → (some a ≡ some b) ↔ (a ≡ b)
some_iff a b = (some-injective _ _, ap some)

mem-needed_by :
    (o c : Text) (source target : Option Text) (rest : List Text)
    → Memᴰ c (needed_by o source target rest)
      ↔ (((source ≡ some o) × (target ≡ some c)) ⊎ Memᴰ c rest)
unfolding needed_by
mem-needed_by o c (some s) (some t) rest =
    ground (arith, eq_iff s o, mem-cons c t rest, some_iff s o, some_iff t c)
mem-needed_by o c (some s) none rest = (inr, λ m. elim m [ inl h ↦ cc h.1 | inr later ↦ later ])
mem-needed_by o c none target rest = (inr, λ m. elim m [ inl h ↦ cc h.0 | inr later ↦ later ])

-- The edges that the query selects.
abbrev selected : ℕ → GovernanceGraphEdge → Bool
selected org_id e = (e.org_id == org_id) && (e.edge_type == edge_obligation_needs) && e.is_active

-- A selected edge between rows of these keys.
abbrev Needing : Session → ℕ → Text → Text → GovernanceGraphEdge → Type 0
Needing session org_id o c e =
    (selected org_id e ≡ true)
    × (key_of_id session.nodes e.source_node_id ≡ some o)
    × (key_of_id session.nodes e.target_node_id ≡ some c)

mem-needs :
    (session : Session) (org_id : ℕ) (o c : Text) (edges : List GovernanceGraphEdge)
    → Memᴰ c (needs session org_id o edges)
      ↔ ((e : GovernanceGraphEdge) × Memᴰ e edges × Needing session org_id o c e)
unfolding needs
mem-needs session org_id o c [] =
    (λ m. absurd (Memᴰ.not-nil m), λ (e, m, _). absurd (Memᴰ.not-nil m))
mem-needs session org_id o c (e ∷ edges) =
    let (to, from) = mem-needs session org_id o c edges in
    let source = key_of_id session.nodes e.source_node_id in
    let target = key_of_id session.nodes e.target_node_id in
    let rest = needs session org_id o edges in
    let (one_to, one_from) = mem-needed_by o c source target rest in
    elim (Bool-cases (selected org_id e)) [
      | inl yes_ ↦ rw yes_ (
        λ m. elim (one_to m) [
          | inl (s, t) ↦ (e, Memᴰ.head refl, (yes_, s, t))
          | inr later ↦ let (f, at, n) = to later in (f, Memᴰ.tail at, n)
        ],
        λ (f, at, (chosen, s, t)). elim (Memᴰ.cases_cons at) [
          | inl q ↦ one_from (
              inl (
                ap (λ (g : GovernanceGraphEdge). key_of_id session.nodes g.source_node_id) (sym q)
                    ∙ s,
                ap (λ (g : GovernanceGraphEdge). key_of_id session.nodes g.target_node_id) (sym q)
                    ∙ t,
              ))
          | inr later ↦ one_from (inr (from (f, later, (chosen, s, t))))
        ],
      )
      | inr left_out ↦ rw left_out (
        λ m. let (f, at, n) = to m in (f, Memᴰ.tail at, n),
        λ (f, at, (chosen, s, t)). elim (Memᴰ.cases_cons at) [
          | inl q ↦ cc (left_out, chosen, ap (selected org_id) q)
          | inr later ↦ from (f, later, (chosen, s, t))
        ],
      )
    ]

pub mem-obligation_needs :
    (session : Session) (org_id : ℕ) (o c : Text)
    → Distinct (map (λ n. n.id) session.nodes)
    → Memᴰ c (obligation_needs session org_id o) ↔ NeedsRow session org_id o c
unfolding obligation_needs
mem-obligation_needs session org_id o c ids =
    let (to, from) = mem-needs session org_id o c session.edges in
    let (set_to, set_from) = mem-to_set c (needs session org_id o session.edges) in
    (
      λ m.
          let (e, at, (chosen, s, t)) = to (set_to m) in
          (
            e,
            at,
            ground (arith, chosen, eq_iff e.org_id org_id),
            ground (arith, chosen, eq_iff e.edge_type edge_obligation_needs),
            ground (arith, chosen),
            key_of_id-some session.nodes e.source_node_id o s,
            key_of_id-some session.nodes e.target_node_id c t,
          ),
      λ (e, at, in_org, typed, active, s, t). set_from (
          from (
            e,
            at,
            (
              ground (
                arith,
                in_org,
                typed,
                active,
                eq_iff e.org_id org_id,
                eq_iff e.edge_type edge_obligation_needs,
              ),
              has_key session e.source_node_id o ids s,
              has_key session e.target_node_id c ids t,
            ),
          )),
    )
  where
    has_key :
        (session : Session) (i : ℕ) (k : Text)
        → Distinct (map (λ n. n.id) session.nodes)
        → HasKey session i k
        → key_of_id session.nodes i ≡ some k
    has_key session i k ids (n, m, same, keyed) =
        subst (λ j. key_of_id session.nodes j ≡ some k) same
          (key_of_id-row session.nodes n ids m ∙ ap some keyed)
