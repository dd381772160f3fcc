-- ===== src/Tables/Upsert/Nodes.antt =====
-- core-side-patch/models.py, `upsert_graph_structure`: what storing one pushed node does.
use p2_ai_knowledge_graph_fo.Base.{
  ℕ, ◌≤◌, ◌<◌, ◌≡◌, refl, sym, ap, ◌⊎◌, inl, inr, true, false, List, [], ◌∷◌, map, some, Text,
  lookup, put, lookup-put, Memᴰ, Distinct, Bool-cases, arith, if◌then◌else◌, ◌==◌, eq_iff, nat_eq,
  list_eq, pair_eq,
}
use p2_ai_knowledge_graph_fo.Tables.{
  Properties, same_properties, GovernanceGraphNode, Session, has_natural_key,
}
use p2_ai_knowledge_graph_fo.Tables.Upsert.{NodeStructureItem, Upserting, update_node}

abbrev pub id_of : GovernanceGraphNode → ℕ
id_of n = n.id

-- What no push changes of a row.
abbrev pub identity : GovernanceGraphNode → ℕ × ℕ × Text × Text
identity n = (n.id, n.org_id, n.node_type, n.node_key)

-- No two rows have one id, or the same organisation, type and key.
pub record NodesUnique (session : Session) : Type 0 where
  pub ids : Distinct (map id_of session.nodes)
  pub bounded : (n : GovernanceGraphNode) → Memᴰ n session.nodes → n.id < session.next_id
  pub keys :
      (n m : GovernanceGraphNode)
      → Memᴰ n session.nodes
      → Memᴰ m session.nodes
      → n.org_id ≡ m.org_id
      → n.node_type ≡ m.node_type
      → n.node_key ≡ m.node_key
      → n.id ≡ m.id

abbrev pub refreshed : ℕ → Properties → GovernanceGraphNode → GovernanceGraphNode
refreshed id properties n =
    if n.id == id
    then record n {
      properties = if same_properties n.properties properties then n.properties else properties;
      archived = false;
    }
    else n

pub update_node-map :
    (id : ℕ) (properties : Properties) (nodes : List GovernanceGraphNode)
    → update_node id properties nodes ≡ map (refreshed id properties) nodes
unfolding update_node
update_node-map id properties [] = refl
update_node-map id properties (n ∷ nodes) =
    ap (λ ns. refreshed id properties n ∷ ns) (update_node-map id properties nodes)

pub refreshed-identity :
    (id : ℕ) (properties : Properties) (n : GovernanceGraphNode)
    → identity (refreshed id properties n) ≡ identity n
refreshed-identity id properties n = ground arith

pub refreshed-archived :
    (id : ℕ) (properties : Properties) (n : GovernanceGraphNode)
    → (n.id ≡ id) ⊎ (n.archived ≡ false)
    → (refreshed id properties n).archived ≡ false
refreshed-archived id properties n h = ground (arith, eq_iff n.id id)

pub ids-update_node :
    (id : ℕ) (properties : Properties) (nodes : List GovernanceGraphNode)
    → map id_of (update_node id properties nodes) ≡ map id_of nodes
unfolding update_node
ids-update_node id properties [] = refl
ids-update_node id properties (n ∷ nodes) =
    let rest = ids-update_node id properties nodes in
    let same = refreshed-identity id properties n in cc (rest, same)

-- A row of the organisation with this id and key that is not archived.
abbrev pub IsStored : ℕ → Session → Text × Text → ℕ → Type 0
IsStored org_id session key i =
    (n : GovernanceGraphNode) × Memᴰ n session.nodes
    × (identity n ≡ (i, org_id, key.0, key.1))
    × (n.archived ≡ false)

-- The ids that are remembered are those of rows.
pub record IsNoted (org_id : ℕ) (u : Upserting) : Type 0 where
  pub unique : NodesUnique u.session
  pub noted :
      (key : Text × Text) (i : ℕ)
      → lookup key u.node_id_by_key ≡ some i
      → IsStored org_id u.session key i

-- From `u` to `u'` the nodes with these keys were stored.
pub record Advance (org_id : ℕ) (u u' : Upserting) (keys : List (Text × Text)) : Type 0 where
  pub same_edges : u'.session.edges ≡ u.session.edges
  pub later : u.session.next_id ≤ u'.session.next_id
  pub kept :
      (n : GovernanceGraphNode)
      → Memᴰ n u.session.nodes
      → (n' : GovernanceGraphNode) × Memᴰ n' u'.session.nodes × (identity n' ≡ identity n)
  pub grown :
      (n' : GovernanceGraphNode)
      → Memᴰ n' u'.session.nodes
      → ((n : GovernanceGraphNode) × Memᴰ n u.session.nodes × (identity n' ≡ identity n))
        ⊎ ((n'.org_id ≡ org_id)
            × Memᴰ (n'.node_type, n'.node_key) keys
            × (u.session.next_id ≤ n'.id))
  pub found :
      (key : Text × Text)
      → Memᴰ key keys ⊎ ((i : ℕ) × (lookup key u.node_id_by_key ≡ some i))
      → (j : ℕ) × (lookup key u'.node_id_by_key ≡ some j)

abbrev pub key_of : NodeStructureItem → Text × Text
key_of node = (node.node_type, node.node_key)

pub natural_key_parts :
    (org_id : ℕ) (t k : Text) (n : GovernanceGraphNode)
    → has_natural_key org_id t k n ≡ true
    → (n.org_id ≡ org_id) × (n.node_type ≡ t) × (n.node_key ≡ k)
unfolding has_natural_key
natural_key_parts org_id t k n h =
    ground (arith, h, eq_iff n.org_id org_id, eq_iff n.node_type t, eq_iff n.node_key k)

pub natural_key_of :
    (org_id : ℕ) (t k : Text) (n : GovernanceGraphNode)
    → n.org_id ≡ org_id
    → n.node_type ≡ t
    → n.node_key ≡ k
    → has_natural_key org_id t k n ≡ true
unfolding has_natural_key
natural_key_of org_id t k n o t' k' =
    ground (arith, eq_iff n.org_id org_id, eq_iff n.node_type t, eq_iff n.node_key k)

-- What is found under a key once another, or the same, is remembered.
pub found_put :
    (key key' : Text × Text) (i : ℕ) (ids : List ((Text × Text) × ℕ))
    → (key ≡ key') ⊎ ((j : ℕ) × (lookup key ids ≡ some j))
    → (j : ℕ) × (lookup key (put key' i ids) ≡ some j)
found_put key key' i ids h = elim (Bool-cases (key' == key)) [
  | inl same ↦ (i, rw (lookup-put key' key i ids, same) refl)
  | inr other ↦ elim h [
    | inl e ↦ absurd (cc (other, (eq_iff key' key).1 (sym e)))
    | inr (j, there) ↦ (j, rw (lookup-put key' key i ids, other) there)
  ]
]

pub lookup-put_cases :
    (key key' : Text × Text) (i j : ℕ) (ids : List ((Text × Text) × ℕ))
    → lookup key (put key' i ids) ≡ some j
    → ((key ≡ key') × (j ≡ i)) ⊎ (lookup key ids ≡ some j)
lookup-put_cases key key' i j ids h = elim (Bool-cases (key' == key)) [
  | inl same ↦
      let e = (eq_iff key' key).0 same in
      let g = rw (lookup-put key' key i ids, same) at h in inl (sym e, cc g)
  | inr other ↦ inr (rw (lookup-put key' key i ids, other) at h)
]
