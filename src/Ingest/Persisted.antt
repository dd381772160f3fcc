-- ===== src/Ingest/Persisted.antt =====
-- core-side-patch/routers/patent_ingest_p2.py: what core keeps of a derivation that it records, and
-- what its rows lead to.
use p2_ai_knowledge_graph_fo.Base.{
  ℕ, ◌<◌, ◌≡◌, refl, sym, ◌↔◌, Bool, true, false, List, [], ◌∷◌, ◌++◌, map, Text, codes, Memᴰ,
  Distinct, if◌then◌else◌, list_eq, nat_eq, subst, suc, inl, inr, Bool-cases, Option-cases, eq_iff,
  ◌==◌,
}
use p2_ai_knowledge_graph_fo.Paths.{Walk, Walk-map}
use p2_ai_knowledge_graph_fo.Tables.{
  Session, TraversalResult, GovernanceGraphNode, upsert_ai_system_obligation_links,
}
use p2_ai_knowledge_graph_fo.Reference.{ReferenceDerived, node_lookup}
use p2_ai_knowledge_graph_fo.Reference.Step.{Names}
use p2_ai_knowledge_graph_fo.Reference.Correct.{CoreDerived}
use p2_ai_knowledge_graph_fo.MismatchMetrics.{flagged_mismatch, add_record}
use p2_ai_knowledge_graph_fo.Ingest.{
  DerivationRequest, Core, validated, store_derivation, input_context, node_entries, edge_entries,
}
use p2_ai_knowledge_graph_fo.Ingest.Entries.{Row, CoreEdge-iff, node_entry, node_lookup-found}

-- One result and one entry of the audit log are new; the result holds what was pushed, and the status.
pub record IsPersisted (payload : DerivationRequest) (org user : ℕ) (core core' : Core)
    (status : Text) (id : ℕ) : Type 0 where
  pub result : TraversalResult
  pub stored : core'.session.results ≡ core.session.results ++ result ∷ []
  pub named : result.id ≡ id
  pub of_system : (result.org_id ≡ org) × (result.ai_system_id ≡ payload.ai_system_id)
  pub obligations : result.derived_obligations ≡ payload.derived_obligations
  pub controls : result.derived_controls ≡ payload.derived_controls
  pub paths : result.graph_path ≡ payload.graph_path
  pub context : result.input_context ≡ input_context payload
  pub marked : result.validation_status ≡ status
  pub counted : core'.metrics ≡ add_record org status core.metrics
  pub logged :
      core'.audit_log
      ≡ core.audit_log
        ++ (org, user, codes "governance_graph.obligation_derivation_ingest", status) ∷ []

pub store_derivation-IsPersisted :
    (payload : DerivationRequest) (org user : ℕ) (core : Core) (r : ReferenceDerived)
    (matches : Bool)
    → IsPersisted payload org user core
        (store_derivation payload org user core r matches).0
        (if matches then validated else flagged_mismatch)
        core.session.next_id
unfolding store_derivation upsert_ai_system_obligation_links
store_derivation-IsPersisted payload org user core r true = record {
  result = _;
  stored = refl;
  named = refl;
  of_system = (refl, refl);
  obligations = refl;
  controls = refl;
  paths = refl;
  context = refl;
  marked = refl;
  counted = refl;
  logged = refl;
}
store_derivation-IsPersisted payload org user core r false = record {
  result = _;
  stored = refl;
  named = refl;
  of_system = (refl, refl);
  obligations = refl;
  controls = refl;
  paths = refl;
  context = refl;
  marked = refl;
  counted = refl;
  logged = refl;
}

-- A row of this id, type and key.
abbrev pub HasNode : List GovernanceGraphNode → ℕ → Text → Text → Type 0
HasNode nodes v t k =
    (n : GovernanceGraphNode) × Memᴰ n nodes × (n.id ≡ v) × (n.node_type ≡ t) × (n.node_key ≡ k)

-- A row of type `t` and key `k` is reached by a walk of 1 to `bound` active rows.
abbrev pub RowDerived : Session → ℕ → ℕ → Text → Text → Type 0
RowDerived session bound s t k =
    (v : ℕ) × (n : ℕ) × Walk (Row session) s (suc n) v × (n < bound) × HasNode session.nodes v t k

node_lookup-HasNode :
    (nodes : List GovernanceGraphNode) (v : ℕ) (t k : Text)
    → Names t k (node_lookup (map node_entry nodes) v)
    → HasNode nodes v t k
unfolding node_lookup
node_lookup-HasNode [] v t k h = absurd h
node_lookup-HasNode (n ∷ nodes) v t k h =
    elim (Option-cases (node_lookup (map node_entry nodes) v)) [
      | inr (e, later) ↦
          let (m, at, same, typed, keyed) =
            node_lookup-HasNode nodes v t k (rw later (rw later at h)) in
          (m, Memᴰ.tail at, same, typed, keyed)
      | inl none_later ↦ elim (Bool-cases (n.id == v)) [
        | inl same ↦ (
          n,
          Memᴰ.head refl,
          (eq_iff n.id v).0 same,
          (rw (none_later, same) at h).0,
          (rw (none_later, same) at h).1,
        )
        | inr other ↦ absurd (rw (none_later, other) at h)
      ]
    ]

pub CoreDerived-iff :
    (session : Session) (bound s : ℕ) (t k : Text)
    → Distinct (map (λ n. n.id) session.nodes)
    → CoreDerived (node_entries session) (edge_entries session) bound s t k
      ↔ RowDerived session bound s t k
unfolding node_entries
CoreDerived-iff session bound s t k ids = (
  λ (v, n, w, lt, names). (
    v,
    n,
    Walk-map (λ a b. (CoreEdge-iff session a b).0) w,
    lt,
    node_lookup-HasNode session.nodes v t k names,
  ),
  λ (v, n, w, lt, (row, m, at, typed, keyed)). (
    v,
    n,
    Walk-map (λ a b. (CoreEdge-iff session a b).1) w,
    lt,
    subst (λ i. Names t k (node_lookup (map node_entry session.nodes) i)) at
        (subst (Names t k) (sym (node_lookup-found session.nodes row ids m)) (typed, keyed)),
  ),
)
