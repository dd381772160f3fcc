-- ===== src/Delivery/Complete.antt =====
-- src/p2_satellite/graph_builder.py and traversal.py: what is derived of a system, by the exports alone.
use mathlib.Core.Logic.Iff
use p2_ai_knowledge_graph_fo.Base.{
  ℕ, ◌≤◌, ◌≡◌, ◌≢◌, refl, sym, ap, ◌∙◌, subst, ◌↔◌, true, some, none, some-injective, Text, Memᴰ,
  contains, list_beq, list_eq, nat_eq, arith,
}
use p2_ai_knowledge_graph_fo.Schema.{
  split_node_id, node_types, node_ai_system, node_obligation, node_control_type,
}
use p2_ai_knowledge_graph_fo.Paths.{Walk, here, step}
use p2_ai_knowledge_graph_fo.Traversal.{
  DiGraph, Derivation, Settings, edge_is_active, derive_obligations,
}
use p2_ai_knowledge_graph_fo.Traversal.Step.{ActiveEdge, HasType}
use p2_ai_knowledge_graph_fo.Traversal.Correct.{Derived, derive_obligations-agrees}
use p2_ai_knowledge_graph_fo.GraphBuilder.{
  Networkx, Exports, AiSystemItem, build_graph, active_edge,
}
use p2_ai_knowledge_graph_fo.GraphBuilder.Calls.{Exported}
use p2_ai_knowledge_graph_fo.GraphBuilder.Exact.{Exported-Valid}
use p2_ai_knowledge_graph_fo.GraphBuilder.Perform.{id_of, split-id_of}
use p2_ai_knowledge_graph_fo.GraphBuilder.Built.{build_graph-exact}
use p2_ai_knowledge_graph_fo.GraphBuilder.Whole.{build_graph-IsWhole}
use p2_ai_knowledge_graph_fo.GraphBuilder.Layered.{Joined, length-Walk-le}
use p2_ai_knowledge_graph_fo.Delivery.View.{IsGraphOf}
use p2_ai_knowledge_graph_fo.GraphBuilder.{walked}
use p2_ai_knowledge_graph_fo.GraphBuilder.Built.{IsExact}
use p2_ai_knowledge_graph_fo.Delivery.Reported.{HasType-present}
use p2_ai_knowledge_graph_fo.Delivery.Exported.{exported-made, walked-IsGraphOf}

module _ {G : Type 0} (nx : Networkx G) (x : Exports) (graph : G) (exact : IsExact nx x graph)
    (of : IsGraphOf (walked nx graph) (nx.nodes graph) (nx.edges graph)) where
  abbrev g : DiGraph
  g = walked nx graph

  -- An active edge leaves the node `a` for one that the exports join it to.
  Joined-by :
      (a : Text × Text) (v : Text)
      → contains a.0 node_types ≡ true
      → ActiveEdge g (id_of a) v
      → (b : Text × Text) × (v ≡ id_of b) × (contains b.0 node_types ≡ true) × Joined x a b
  Joined-by a v known (d, m, _) =
      let (t, a', b, e, starts, ends, _) =
        (exact (id_of a) v d).0 ((nx.mem_out_edges graph _ v d).0 m) in
      let (_, known', known'', _) = Exported-Valid x e in
      let same : a' ≡ a =
        sym (split-id_of a' known') ∙ ap split_node_id (sym starts) ∙ split-id_of a known in
      (b, ends, known'', (t, subst (λ c. Exported x t c b) same e))

  edge_of : (a b : Text × Text) → Joined x a b → ActiveEdge g (id_of a) (id_of b)
  unfolding edge_is_active
  edge_of a b (t, e) = (
    active_edge t,
    (nx.mem_out_edges graph (id_of a) (id_of b) (active_edge t)).1
        ((exact (id_of a) (id_of b) (active_edge t)).1 (t, a, b, e, refl, refl, refl)),
    refl,
  )

  module _ (s : Text × Text) (known : contains s.0 node_types ≡ true) where
    Walk-Joined :
        {n : ℕ} {v : Text}
        → Walk (ActiveEdge g) (id_of s) n v
        → (b : Text × Text) × (v ≡ id_of b)
          × (contains b.0 node_types ≡ true)
          × Walk (Joined x) s n b
    Walk-Joined here = (s, refl, known, here)
    Walk-Joined (step {u = u} {v = v} w e) =
        let (a, at, known', w') = Walk-Joined w in
        let (b, at', known'', j) = Joined-by a v known' (subst (λ c. ActiveEdge g c v) at e) in
        (b, at', known'', step w' j)

    Walk-id_of :
        {n : ℕ} {b : Text × Text}
        → Walk (Joined x) s n b
        → Walk (ActiveEdge g) (id_of s) n (id_of b)
    Walk-id_of here = here
    Walk-id_of (step {u = a} {v = b} w j) = step (Walk-id_of w) (edge_of a b j)

    Walk-present :
        {n : ℕ} {v : Text}
        → Memᴰ (id_of s) (nx.nodes graph)
        → Walk (ActiveEdge g) (id_of s) n v
        → Memᴰ v (nx.nodes graph)
    Walk-present at here = at
    Walk-present at (step {u = u} {v = v} w (d, m, _)) = (of.ends (u, v, d) ((of.out u v d).0 m)).1

    module _ (bound : ℕ) (deep : 4 ≤ bound) (at : Memᴰ (id_of s) (nx.nodes graph)) (t k : Text)
        (other : t ≢ s.0) (known' : contains t node_types ≡ true) where
      -- Within the bound or not, a walk of the exports leads to what is derived.
      Derived-iff : Derived g bound (id_of s) t k ↔ ((n : ℕ) × Walk (Joined x) s n (t, k))
      Derived-iff = (
        λ (_, (v, (_, n, w, _), typed)).
            let (b, at', known'', w') = Walk-Joined w in
            let (_, split) = HasType-present nx graph g of t v k typed in
            let same = sym (split-id_of b known'') ∙ ap split_node_id (sym at') ∙ split in
            (n, subst (Walk (Joined x) s n) same w'),
        λ (n, w).
            let w' = Walk-id_of w in
            let short = length-Walk-le x w in
            let split = split-id_of (t, k) known' in
            (
              (of.present (id_of s)).1 at,
              (
                id_of (t, k),
                (
                  λ e. other (
                      ap (λ (p : Text × Text). p.0)
                        (sym split ∙ ap split_node_id e ∙ split-id_of s known)),
                  n,
                  w',
                  omega (arith, short, deep),
                ),
                subst (λ (p : Text × Text). HasType g p.0 (id_of (t, k)) p.1) split
                    (of.attributes (id_of (t, k)) (Walk-present at w')),
              ),
            ),
      )

-- With a depth bound of 4 or more the bound cuts nothing off: the graph of the exports is built, and the
-- obligations (controls) that the satellite derives from a system of the exports are exactly those
-- that the entries of the exports lead to from it, in any number of steps.
pub exported_derivation-exact :
    {G : Type 0} (nx : Networkx G) (x : Exports) (settings : Settings) (system : AiSystemItem)
    → Memᴰ system x.ai_systems
    → 4 ≤ settings.max_traversal_depth
    → (graph : G) × (d : Derivation) × (build_graph nx x ≡ some graph)
      × (derive_obligations settings (walked nx graph) (id_of (node_ai_system, system.id)) none
          ≡ some d)
      × ((k : Text)
          → Memᴰ k d.derived_obligations
            ↔ ((n : ℕ) × Walk (Joined x) (node_ai_system, system.id) n (node_obligation, k)))
      × ((k : Text)
          → Memᴰ k d.derived_controls
            ↔ ((n : ℕ) × Walk (Joined x) (node_ai_system, system.id) n (node_control_type, k)))
unfolding contains list_beq
exported_derivation-exact nx x settings system at deep =
    let (graph, builds, whole, systems) = build_graph-IsWhole nx x in
    let (graph', builds', exact') = build_graph-exact nx x in
    let exact : IsExact nx x graph =
      subst (IsExact nx x) (some-injective _ _ (sym builds' ∙ builds)) exact' in
    let of = walked-IsGraphOf nx graph whole (exported-made nx x graph exact) in
    let s : Text × Text = (node_ai_system, system.id) in
    let (d, derives, obligations, controls) =
      derive_obligations-agrees settings (walked nx graph) (id_of s) none in
    let by = λ (t k : Text) (other : t ≢ node_ai_system) (known : contains t node_types ≡ true).
      Derived-iff nx x graph exact of s refl settings.max_traversal_depth deep (systems system at) t
        k other known in
    (
      graph,
      d,
      builds,
      derives,
      λ k. Iff.trans (obligations k) (by node_obligation k (λ e. cc e) refl),
      λ k. Iff.trans (controls k) (by node_control_type k (λ e. cc e) refl),
    )
