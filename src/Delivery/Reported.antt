-- ===== src/Delivery/Reported.antt =====
-- src/p2_satellite/traversal.py and core-side-patch/validation.py: what the satellite reports of a pushed graph is
-- in core's catalog.
use p2_ai_knowledge_graph_fo.Base.{
  ℕ, ◌≡◌, sym, ap, ◌∙◌, subst, inl, inr, [], Option, none, some, some-injective, Option-cases, Text,
  Memᴰ, Bool-cases, nat_eq, list_eq,
}
use p2_ai_knowledge_graph_fo.Schema.{
  split_node_id, node_ai_system, node_obligation, node_control_type,
}
use p2_ai_knowledge_graph_fo.Traversal.{
  DiGraph, Derivation, Settings, derive_obligations, traverse, report, nothing_reachable, walk,
}
use p2_ai_knowledge_graph_fo.Traversal.Step.{HasType}
use p2_ai_knowledge_graph_fo.Traversal.Correct.{Derived, depth_of, derive_obligations-agrees}
use p2_ai_knowledge_graph_fo.Reference.{NodeEntry}
use p2_ai_knowledge_graph_fo.Reference.Step.{Names}
use p2_ai_knowledge_graph_fo.Reference.Correct.{NotTerminal}
use p2_ai_knowledge_graph_fo.Validation.{DerivedIds, validate_obligation_control_ids}
use p2_ai_knowledge_graph_fo.Tables.{Session, active_keys, load_active_catalog}
use p2_ai_knowledge_graph_fo.Tables.Upsert.Nodes.{IsStored}
use p2_ai_knowledge_graph_fo.GraphBuilder.{Networkx}
use p2_ai_knowledge_graph_fo.Delivery.View.{IsGraphOf}
use p2_ai_knowledge_graph_fo.Delivery.Accepted.{mem-active_keys, validate-nil}

-- A system is no obligation and no control type.
pub system-NotTerminal :
    (o : Option NodeEntry) (t k : Text) → t ≡ node_ai_system → Names t k o → NotTerminal o
system-NotTerminal none t k typed n = absurd n
system-NotTerminal (some e) t k typed (same, _) =
    let system : e.node_type ≡ node_ai_system = same ∙ typed in
    ((λ p. cc (p, system)), (λ p. cc (p, system)))

traverse-id :
    (g : DiGraph) (version s key : Text) (bound : ℕ) (d : Derivation)
    → traverse g version s key bound ≡ some d
    → d.ai_system_id ≡ key
unfolding traverse report nothing_reachable
traverse-id g version s key bound d h = elim (Bool-cases (g.has_node s)) [
  | inr missing ↦ let e = rw missing at h in cc (some-injective _ _ e)
  | inl there ↦ elim (Option-cases (walk g bound s)) [
    | inl stuck ↦ cc (rw (there, stuck) at h)
    | inr (w, ends) ↦ let e = rw (there, ends) at h in cc (some-injective _ _ e)
  ]
]

-- The id that is reported is the key of the start.
pub ai_system_id-derive_obligations :
    (settings : Settings) (g : DiGraph) (s : Text) (m : Option ℕ) (d : Derivation)
    → derive_obligations settings g s m ≡ some d
    → d.ai_system_id ≡ (split_node_id s).1
unfolding derive_obligations
ai_system_id-derive_obligations settings g s m d h =
    traverse-id g settings.methodology_version s (split_node_id s).1 _ d h

module _ {G : Type 0} (nx : Networkx G) (graph : G) (g : DiGraph)
    (of : IsGraphOf g (nx.nodes graph) (nx.edges graph)) where
  -- A node of a type and a key is one of the graph, and its id is split into these.
  pub HasType-present :
      (t v k : Text) → HasType g t v k → Memᴰ v (nx.nodes graph) × (split_node_id v ≡ (t, k))
  HasType-present t v k h = elim (Bool-cases (g.has_node v)) [
    | inl there ↦
        let m = (of.present v).0 there in let typed = of.attributes v m in (m, cc (h, typed))
    | inr missing ↦ let nothing = of.absent v missing in absurd cc
  ]

  module _ (org_id : ℕ) (after : Session) (row : Text → ℕ)
      (stored_at : (v : Text)
        → Memᴰ v (nx.nodes graph)
        → IsStored org_id after (split_node_id v) (row v))
      (settings : Settings) (s : Text) (d : Derivation)
      (derives : derive_obligations settings g s none ≡ some d) where
    -- A derived key is in the catalog.
    cataloged :
        (t k : Text)
        → Derived g (depth_of settings none) s t k
        → Memᴰ k (active_keys after org_id t)
    cataloged t k (_, (v, _, typed)) =
        let (m, same) = HasType-present t v k typed in
        mem-active_keys after org_id t k (row v)
          (subst (λ key. IsStored org_id after key (row v)) same (stored_at v m))

    pub none_bad :
        (payload : DerivedIds)
        → payload.derived_obligations ≡ d.derived_obligations
        → payload.derived_controls ≡ d.derived_controls
        → validate_obligation_control_ids payload (load_active_catalog after org_id) ≡ []
    unfolding load_active_catalog
    none_bad payload same same' =
        let (d', derives', obligations, controls) = derive_obligations-agrees settings g s none in
        let one : d' ≡ d = some-injective _ _ (sym derives' ∙ derives) in
        validate-nil payload (load_active_catalog after org_id)
          (λ k m. cataloged node_obligation k (
            (obligations k).0
              (subst (Memᴰ k) (same ∙ ap (λ (e : Derivation). e.derived_obligations) (sym one)) m)))
          (λ k m. cataloged node_control_type k (
            (controls k).0
              (subst (Memᴰ k) (same' ∙ ap (λ (e : Derivation). e.derived_controls) (sym one)) m)))
