-- ===== src/Tables/Upsert/Snapshot.antt =====
-- core-side-patch/models.py, `upsert_graph_structure`: the tables after a snapshot was pushed.
use p2_ai_knowledge_graph_fo.Base.{
  ℕ, ◌≤◌, ◌≡◌, refl, sym, subst, ◌⊎◌, inl, inr, ◌↔◌, true, List, map, some, Text, lookup, Memᴰ,
  arith, nat_eq, list_eq, pair_eq,
}
use p2_ai_knowledge_graph_fo.Tables.{Session, GovernanceGraphNode}
use p2_ai_knowledge_graph_fo.Tables.Upsert.{
  NodeStructureItem, EdgeStructureItem, Counts, Upserting, start, upsert_graph_structure,
}
use p2_ai_knowledge_graph_fo.Tables.Upsert.Nodes.{
  identity, NodesUnique, IsStored, IsNoted, Advance, key_of,
}
use p2_ai_knowledge_graph_fo.Tables.Upsert.AllNodes.{all_nodes_stored}
use p2_ai_knowledge_graph_fo.Tables.Upsert.Edges.{EdgesUnique, ActiveRow, Linked}
use p2_ai_knowledge_graph_fo.Tables.Upsert.AllEdges.{
  source_key, target_key, Between, IsResolved, all_edges_stored,
}

-- What a push of these nodes and edges makes of the tables.
pub record IsPushed (org_id : ℕ) (before after : Session) (nodes : List NodeStructureItem)
    (edges : List EdgeStructureItem) : Type 0 where
  pub nodes_unique : NodesUnique after
  pub edges_unique : EdgesUnique after
  pub stored :
      (key : Text × Text) → Memᴰ key (map key_of nodes) → (i : ℕ) × IsStored org_id after key i
  pub kept :
      (n : GovernanceGraphNode)
      → Memᴰ n before.nodes
      → (n' : GovernanceGraphNode) × Memᴰ n' after.nodes × (identity n' ≡ identity n)
  pub grown :
      (n' : GovernanceGraphNode)
      → Memᴰ n' after.nodes
      → ((n : GovernanceGraphNode) × Memᴰ n before.nodes × (identity n' ≡ identity n))
        ⊎ ((n'.org_id ≡ org_id)
            × Memᴰ (n'.node_type, n'.node_key) (map key_of nodes)
            × (before.next_id ≤ n'.id))
  pub rows :
      (x y : ℕ)
      → ActiveRow after x y ↔ (
          ActiveRow before x y
          ⊎ ((e : EdgeStructureItem) × Memᴰ e edges
              × IsStored org_id after (source_key e) x
              × IsStored org_id after (target_key e) y))

-- The edge is active, and joins nodes of the push.
abbrev pub IsWithin : List NodeStructureItem → EdgeStructureItem → Type 0
IsWithin nodes e =
    (e.is_active ≡ true)
    × Memᴰ (source_key e) (map key_of nodes)
    × Memᴰ (target_key e) (map key_of nodes)

pub start-IsNoted :
    (org_id : ℕ) (session : Session) → NodesUnique session → IsNoted org_id (start session)
unfolding lookup
start-IsNoted org_id session unique = record { unique = unique; noted = λ key i h. absurd cc }

-- Ids that are given out leave what was unique so.
EdgesUnique-later :
    (s s' : Session) → s'.edges ≡ s.edges → s.next_id ≤ s'.next_id → EdgesUnique s → EdgesUnique s'
EdgesUnique-later s s' same later unique = record {
  ids = rw same unique.ids;
  bounded = λ e m.
      let (below, source) = unique.bounded e (subst (Memᴰ e) same m) in
      (omega (arith, below, later), omega (arith, source, later));
  keys = λ e f in_e in_f. unique.keys e f (subst (Memᴰ e) same in_e) (subst (Memᴰ f) same in_f);
}

NodesUnique-later :
    (s s' : Session) → s'.nodes ≡ s.nodes → s.next_id ≤ s'.next_id → NodesUnique s → NodesUnique s'
NodesUnique-later s s' same later unique = record {
  ids = rw same unique.ids;
  bounded =
      λ n m. let below = unique.bounded n (subst (Memᴰ n) same m) in omega (arith, below, later);
  keys = λ n k in_n in_k. unique.keys n k (subst (Memᴰ n) same in_n) (subst (Memᴰ k) same in_k);
}

ActiveRow-same :
    (s s' : Session) → s'.edges ≡ s.edges → (x y : ℕ) → ActiveRow s' x y ↔ ActiveRow s x y
ActiveRow-same s s' same x y = (
  λ (e, m, on, from, to). (e, subst (Memᴰ e) same m, on, from, to),
  λ (e, m, on, from, to). (e, subst (Memᴰ e) (sym same) m, on, from, to),
)

-- A key has one row.
pub IsStored-unique :
    (org_id : ℕ) (session : Session) (key : Text × Text) (i j : ℕ)
    → NodesUnique session
    → IsStored org_id session key i
    → IsStored org_id session key j
    → i ≡ j
IsStored-unique org_id session key i j unique (n, m, e, _) (n', m', e', _) =
    let same = unique.keys n n' m m' (cc (e, e')) (cc (e, e')) (cc (e, e')) in cc (same, e, e')

module _ (org_id : ℕ) (u w : Upserting) (same : w.session.nodes ≡ u.session.nodes) where
  IsStored-after :
      (key : Text × Text) (i : ℕ)
      → IsStored org_id u.session key i
      → IsStored org_id w.session key i
  IsStored-after key i (n, m, e, open_row) = (n, subst (Memᴰ n) (sym same) m, e, open_row)

  -- The ids that are remembered for a key are those of its row.
  remembered_iff :
      (key : Text × Text) (i : ℕ)
      → IsNoted org_id u
      → ((j : ℕ) × (lookup key u.node_id_by_key ≡ some j))
      → (lookup key u.node_id_by_key ≡ some i) ↔ IsStored org_id w.session key i
  remembered_iff key i noted (j, h) = (
    λ g. IsStored-after key i (noted.noted key i g),
    λ (n, m, e, open_row).
        let same_id =
          IsStored-unique org_id u.session key i j noted.unique
            (n, subst (Memᴰ n) same m, e, open_row) (noted.noted key j h) in
        cc (h, same_id),
  )

module _ (org_id : ℕ) (session : Session) (nodes : List NodeStructureItem)
    (edges : List EdgeStructureItem) where
  IsResolved-within :
      (u : Upserting) (e : EdgeStructureItem)
      → IsNoted org_id u
      → Advance org_id (start session) u (map key_of nodes)
      → IsWithin nodes e
      → IsResolved u e
  IsResolved-within u e noted stored (on, from, to) =
      let (i, source) = stored.found (source_key e) (inl from) in
      let (n, m, at, _) = noted.noted (source_key e) i source in
      let below = noted.unique.bounded n m in
      let same : n.id ≡ i = cc at in
      (on, (i, source, omega (arith, below, same)), stored.found (target_key e) (inl to))

  both_loops-IsPushed :
      (u w : Upserting)
      → IsNoted org_id u
      → Advance org_id (start session) u (map key_of nodes)
      → EdgesUnique w.session
      → Linked u w (Between u.node_id_by_key edges)
      → ((e : EdgeStructureItem) → Memᴰ e edges → IsWithin nodes e)
      → IsPushed org_id session w.session nodes edges
  both_loops-IsPushed u w noted stored unique linked within = record {
    nodes_unique =
        NodesUnique-later u.session w.session linked.same_nodes linked.later noted.unique;
    edges_unique = unique;
    stored = λ key m.
        let (i, h) = stored.found key (inl m) in
        (i, IsStored-after org_id u w linked.same_nodes key i (noted.noted key i h));
    kept = λ n m.
        let (n', m', e) = stored.kept n m in (n', subst (Memᴰ n') (sym linked.same_nodes) m', e);
    grown = λ n' m'. stored.grown n' (subst (Memᴰ n') linked.same_nodes m');
    rows = λ x y.
        let ids = λ (key : Text × Text) (i : ℕ) (m : Memᴰ key (map key_of nodes)).
          remembered_iff org_id u w linked.same_nodes key i noted (stored.found key (inl m)) in
        let before = ActiveRow-same session u.session stored.same_edges x y in
        (
          λ r. elim ((linked.rows x y).0 r) [
            | inl old ↦ inl (before.0 old)
            | inr (e, m, from, to) ↦
                let (_, at, at') = within e m in
                inr (e, m, (ids (source_key e) x at).0 from, (ids (target_key e) y at').0 to)
          ],
          λ r. (linked.rows x y).1 (elim r [
            | inl old ↦ inl (before.1 old)
            | inr (e, m, from, to) ↦
                let (_, at, at') = within e m in
                inr (e, m, (ids (source_key e) x at).1 from, (ids (target_key e) y at').1 to)
          ]),
        );
  }

-- Let ids and keys of the tables be unique, let the ids of rows and of edges' sources have been given out,
-- and let the pushed edges be active and join pushed nodes. Then the upsert does not raise, all this
-- stays so, every pushed node has a row that is not archived, no other nodes come, none goes, and
-- the ids that active rows join are those that they joined before and those of the pushed edges' ends.
pub upsert_graph_structure-exact :
    (session : Session) (org_id : ℕ) (nodes : List NodeStructureItem)
    (edges : List EdgeStructureItem)
    → NodesUnique session
    → EdgesUnique session
    → ((e : EdgeStructureItem) → Memᴰ e edges → IsWithin nodes e)
    → (session' : Session) × (counts : Counts) × (upsert_graph_structure session org_id nodes edges
        ≡ some (session', counts))
      × IsPushed org_id session session' nodes edges
unfolding upsert_graph_structure
upsert_graph_structure-exact session org_id nodes edges unique unique' within =
    let (u, ends, noted, stored) =
      all_nodes_stored org_id (start session) nodes (start-IsNoted org_id session unique) in
    let (w, ends', unique'', linked) =
      all_edges_stored org_id u edges
        (EdgesUnique-later session u.session stored.same_edges stored.later unique')
        (λ e m. IsResolved-within org_id session nodes edges u e noted stored (within e m)) in
    (
      w.session,
      w.counts,
      rw (ends, ends') refl,
      both_loops-IsPushed org_id session nodes edges u w noted stored unique'' linked within,
    )
