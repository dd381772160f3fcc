-- ===== src/Agreement.antt =====
-- The contract between src/p2_satellite/traversal.py and core-side-patch: a derivation that the
-- satellite makes is what core derives, and core's comparison accepts it.
use p2_ai_knowledge_graph_fo.Base.{
  ℕ, suc, ◌≤◌, ◌≡◌, refl, subst, ◌↔◌, true, List, Option, some, Text, SameMembers, Memᴰ, arith,
  list_eq, nat_eq,
}
use p2_ai_knowledge_graph_fo.Schema.{node_obligation, node_control_type}
use p2_ai_knowledge_graph_fo.Paths.{Walk, here, step, Walk-pos}
use p2_ai_knowledge_graph_fo.Traversal.{DiGraph, Derivation, Settings, derive_obligations}
use p2_ai_knowledge_graph_fo.Traversal.Step.{ActiveEdge, HasType}
use p2_ai_knowledge_graph_fo.Traversal.Correct.{Derived, depth_of, derive_obligations-agrees}
use p2_ai_knowledge_graph_fo.Reference.{
  NodeEntry, EdgeEntry, ReferenceDerived, node_lookup, derive_obligations_pure_python,
}
use p2_ai_knowledge_graph_fo.Reference.Step.{CoreEdge, Names}
use p2_ai_knowledge_graph_fo.Reference.Correct.{
  CoreDerived, NotTerminal, not-Names, reference-agrees,
}
use p2_ai_knowledge_graph_fo.Validation.{compare_derivation}
use p2_ai_knowledge_graph_fo.Validation.Laws.{compare_derivation_iff}

-- Core's rows describe the satellite's graph: `row` gives the id of the row of a node.
pub record Mirrors (g : DiGraph) (nodes : List NodeEntry) (edges : List EdgeEntry) (row : Text → ℕ)
    : Type 0 where
  pub edge_to : (u v : Text) → ActiveEdge g u v → CoreEdge edges (row u) (row v)
  pub edge_from :
      (u : Text) (y : ℕ) → CoreEdge edges (row u) y → (v : Text) × (y ≡ row v) × ActiveEdge g u v
  pub same_data : (v t k : Text) → HasType g t v k ↔ Names t k (node_lookup nodes (row v))

module _ (g : DiGraph) (nodes : List NodeEntry) (edges : List EdgeEntry) (row : Text → ℕ)
    (mirrors : Mirrors g nodes edges row) (s : Text) where
  Walk-to : {n : ℕ} {v : Text} → Walk (ActiveEdge g) s n v → Walk (CoreEdge edges) (row s) n (row v)
  Walk-to here = here
  Walk-to (step {u = u} {v = v} w e) = step (Walk-to w) (mirrors.edge_to u v e)

  Walk-from :
      {n y : ℕ}
      → Walk (CoreEdge edges) (row s) n y
      → (v : Text) × (y ≡ row v) × Walk (ActiveEdge g) s n v
  Walk-from here = (s, refl, here)
  Walk-from (step {v = y} w e) =
      let (u, at_u, w') = Walk-from w in
      let (v, at_v, e') = mirrors.edge_from u y (subst (λ x. CoreEdge edges x y) at_u e) in
      (v, at_v, step w' e')

  module _ (bound : ℕ) (positive : 1 ≤ bound) (present : g.has_node s ≡ true) where
    Derived-to : (t k : Text) → Derived g bound s t k → CoreDerived nodes edges bound (row s) t k
    Derived-to t k (_, (v, (ne, n, w, l), h)) =
        let (m, e) = Walk-pos w ne in
        (
          row v,
          m,
          subst (λ j. Walk (CoreEdge edges) (row s) j (row v)) e (Walk-to w),
          omega arith,
          (mirrors.same_data v t k).0 h,
        )

    Derived-from :
        (t k : Text)
        → ¬ HasType g t s k
        → CoreDerived nodes edges bound (row s) t k
        → Derived g bound s t k
    Derived-from t k other (y, n, w, l, h) =
        let (v, at_v, w') = Walk-from w in
        let typed : HasType g t v k =
          (mirrors.same_data v t k).1 (subst (λ x. Names t k (node_lookup nodes x)) at_v h) in
        (
          present,
          (v, (λ e. other (subst (λ x. HasType g t x k) e typed), suc n, w', omega arith), typed),
        )

    agree :
        (t : Text) (xs ys : List Text)
        → ((k : Text) → ¬ HasType g t s k)
        → ((k : Text) → Memᴰ k xs ↔ Derived g bound s t k)
        → ((k : Text) → Memᴰ k ys ↔ CoreDerived nodes edges bound (row s) t k)
        → SameMembers xs ys
    agree t xs ys other left right k = (
      λ m. (right k).1 (Derived-to t k ((left k).0 m)),
      λ m. (left k).1 (Derived-from t k (other k) ((right k).0 m)),
    )

-- Let core's rows mirror the satellite's graph, and let `s` be a node of it that is no obligation and
-- no control type. With one and the same positive depth bound on both sides, both traversals return,
-- and `compare_derivation` accepts what the satellite derived from `s`.
pub satellite_validated :
    (settings : Settings) (g : DiGraph) (nodes : List NodeEntry) (edges : List EdgeEntry)
    (row : Text → ℕ) (s : Text) (m : Option ℕ)
    → Mirrors g nodes edges row
    → g.has_node s ≡ true
    → NotTerminal (node_lookup nodes (row s))
    → 1 ≤ depth_of settings m
    → (d : Derivation) × (r : ReferenceDerived) × (derive_obligations settings g s m ≡ some d)
      × (derive_obligations_pure_python nodes edges (row s) (depth_of settings m) ≡ some r)
      × (compare_derivation
            (record {
              derived_obligations = d.derived_obligations;
              derived_controls = d.derived_controls;
            })
            (record {
              derived_obligations = r.derived_obligations;
              derived_controls = r.derived_controls;
            })
          ≡ true)
satellite_validated settings g nodes edges row s m mirrors present plain positive =
    let (d, returns, obligations, controls) = derive_obligations-agrees settings g s m in
    let (r, returns', obligations', controls') =
      reference-agrees nodes edges (row s) (depth_of settings m) plain in
    let other = λ (t k : Text) (h : HasType g t s k).
      not-Names (node_lookup nodes (row s)) t k plain ((mirrors.same_data s t k).0 h) in
    let same = agree g nodes edges row mirrors s (depth_of settings m) positive present in
    (
      d,
      r,
      returns,
      returns',
      (compare_derivation_iff _ _).1 (
        same node_obligation _ _ (λ k h. (other node_obligation k h).0 refl) obligations
            obligations',
        same node_control_type _ _ (λ k h. (other node_control_type k h).1 refl) controls controls',
      ),
    )
