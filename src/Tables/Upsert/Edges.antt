-- ===== src/Tables/Upsert/Edges.antt =====
-- core-side-patch/models.py, `upsert_graph_structure`: what storing one pushed edge does.
use p2_ai_knowledge_graph_fo.Base.{
  ℕ, ◌≤◌, ◌<◌, ◌≡◌, refl, ap, ◌⊎◌, ◌↔◌, true, List, [], ◌∷◌, map, Text, Memᴰ, Distinct, arith,
  if◌then◌else◌, ◌==◌, eq_iff, nat_eq, list_eq, pair_eq,
}
use p2_ai_knowledge_graph_fo.Tables.{same_properties, GovernanceGraphEdge, Session}
use p2_ai_knowledge_graph_fo.Tables.Upsert.{EdgeStructureItem, Upserting, has_edge_key, update_edge}

abbrev pub edge_id : GovernanceGraphEdge → ℕ
edge_id e = e.id

-- What no push changes of a row.
abbrev pub edge_identity : GovernanceGraphEdge → ℕ × ℕ × ℕ × ℕ × Text
edge_identity e = (e.id, e.org_id, e.source_node_id, e.target_node_id, e.edge_type)

-- No two rows have one id, or the same organisation, ends and type; ids were given out.
pub record EdgesUnique (session : Session) : Type 0 where
  pub ids : Distinct (map edge_id session.edges)
  pub bounded :
      (e : GovernanceGraphEdge)
      → Memᴰ e session.edges
      → (e.id < session.next_id) × (e.source_node_id < session.next_id)
  pub keys :
      (e f : GovernanceGraphEdge)
      → Memᴰ e session.edges
      → Memᴰ f session.edges
      → e.org_id ≡ f.org_id
      → e.source_node_id ≡ f.source_node_id
      → e.target_node_id ≡ f.target_node_id
      → e.edge_type ≡ f.edge_type
      → e.id ≡ f.id

-- An active row.
abbrev pub ActiveRow : Session → ℕ → ℕ → Type 0
ActiveRow session x y =
    (e : GovernanceGraphEdge) × Memᴰ e session.edges
    × (e.is_active ≡ true)
    × (e.source_node_id ≡ x)
    × (e.target_node_id ≡ y)

abbrev pub refreshed : ℕ → EdgeStructureItem → GovernanceGraphEdge → GovernanceGraphEdge
refreshed id edge e =
    if e.id == id
    then record e {
      is_active = edge.is_active;
      weight = edge.weight;
      properties =
          if same_properties e.properties edge.properties then e.properties else edge.properties;
    }
    else e

pub update_edge-map :
    (id : ℕ) (edge : EdgeStructureItem) (edges : List GovernanceGraphEdge)
    → update_edge id edge edges ≡ map (refreshed id edge) edges
unfolding update_edge
update_edge-map id edge [] = refl
update_edge-map id edge (e ∷ edges) =
    ap (λ es. refreshed id edge e ∷ es) (update_edge-map id edge edges)

pub refreshed-identity :
    (id : ℕ) (edge : EdgeStructureItem) (e : GovernanceGraphEdge)
    → edge_identity (refreshed id edge e) ≡ edge_identity e
refreshed-identity id edge e = ground arith

pub refreshed-active :
    (id : ℕ) (edge : EdgeStructureItem) (e : GovernanceGraphEdge)
    → edge.is_active ≡ true
    → (e.id ≡ id) ⊎ (e.is_active ≡ true)
    → (refreshed id edge e).is_active ≡ true
refreshed-active id edge e on h = ground (arith, eq_iff e.id id)

pub refreshed-was_active :
    (id : ℕ) (edge : EdgeStructureItem) (e : GovernanceGraphEdge)
    → (refreshed id edge e).is_active ≡ true
    → (e.id ≡ id) ⊎ (e.is_active ≡ true)
refreshed-was_active id edge e h = ground (arith, h, eq_iff e.id id)

pub ids-update_edge :
    (id : ℕ) (edge : EdgeStructureItem) (edges : List GovernanceGraphEdge)
    → map edge_id (update_edge id edge edges) ≡ map edge_id edges
unfolding update_edge
ids-update_edge id edge [] = refl
ids-update_edge id edge (e ∷ edges) =
    let rest = ids-update_edge id edge edges in
    let same = refreshed-identity id edge e in cc (rest, same)

pub edge_key_parts :
    (org s t : ℕ) (ty : Text) (e : GovernanceGraphEdge)
    → has_edge_key org s t ty e ≡ true
    → (e.org_id ≡ org) × (e.source_node_id ≡ s) × (e.target_node_id ≡ t) × (e.edge_type ≡ ty)
unfolding has_edge_key
edge_key_parts org s t ty e h = ground (
  arith,
  h,
  eq_iff e.org_id org,
  eq_iff e.source_node_id s,
  eq_iff e.target_node_id t,
  eq_iff e.edge_type ty,
)

pub edge_key_of :
    (org s t : ℕ) (ty : Text) (e : GovernanceGraphEdge)
    → e.org_id ≡ org
    → e.source_node_id ≡ s
    → e.target_node_id ≡ t
    → e.edge_type ≡ ty
    → has_edge_key org s t ty e ≡ true
unfolding has_edge_key
edge_key_of org s t ty e o s' t' ty' = ground (
  arith,
  eq_iff e.org_id org,
  eq_iff e.source_node_id s,
  eq_iff e.target_node_id t,
  eq_iff e.edge_type ty,
)

-- From `u` to `u'` active rows between these nodes were stored, and nothing else was changed.
pub record Linked (u u' : Upserting) (Pushed : ℕ → ℕ → Type 0) : Type 0 where
  pub same_nodes : u'.session.nodes ≡ u.session.nodes
  pub same_ids : u'.node_id_by_key ≡ u.node_id_by_key
  pub later : u.session.next_id ≤ u'.session.next_id
  pub rows : (x y : ℕ) → ActiveRow u'.session x y ↔ (ActiveRow u.session x y ⊎ Pushed x y)
