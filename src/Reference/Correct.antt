-- ===== src/Reference/Correct.antt =====
-- core-side-patch/reference_traversal_cte.py: what the pure-Python traversal returns, against walks.
use mathlib.Core.List.Memᴰ
use p2_ai_knowledge_graph_fo.Base.{
  ℕ, suc, ◌<◌, ◌≡◌, ◌≢◌, refl, ◌∙◌, ◌↔◌, List, some, none, Option, Text, text_le, sorted,
  mem-sorted, Memᴰ, subst,
}
use p2_ai_knowledge_graph_fo.Schema.{node_obligation, node_control_type}
use p2_ai_knowledge_graph_fo.Paths.{Walk}
use p2_ai_knowledge_graph_fo.Reference.{
  NodeEntry, EdgeEntry, Deriving, ReferenceDerived, node_lookup, walk, collected,
  derive_obligations_pure_python,
}
use p2_ai_knowledge_graph_fo.Reference.Step.{CoreEdge, Names, obligation_noted, control_noted}
use p2_ai_knowledge_graph_fo.Reference.Loop.{walk_returns}
use p2_ai_knowledge_graph_fo.Reference.Search.{walk_output}

-- A row of type `t` and key `k` is reached by a walk of 1 to `bound` active rows.
abbrev pub CoreDerived : List NodeEntry → List EdgeEntry → ℕ → ℕ → Text → Text → Type 0
CoreDerived nodes edges bound s t k =
    (v : ℕ) × (n : ℕ) × Walk (CoreEdge edges) s (suc n) v
    × (n < bound)
    × Names t k (node_lookup nodes v)

-- The node is neither an obligation nor a control type.
abbrev pub NotTerminal : Option NodeEntry → Type 0
NotTerminal none = Unit
NotTerminal (some n) = (n.node_type ≢ node_obligation) × (n.node_type ≢ node_control_type)

pub not-Names :
    (o : Option NodeEntry) (t k : Text)
    → NotTerminal o
    → Names t k o
    → (t ≢ node_obligation) × (t ≢ node_control_type)
not-Names none t k h n = absurd n
not-Names (some e) t k h n = (λ p. h.0 (n.0 ∙ p), λ p. h.1 (n.0 ∙ p))

pub reference-agrees :
    (nodes : List NodeEntry) (edges : List EdgeEntry) (s bound : ℕ)
    → NotTerminal (node_lookup nodes s)
    → (r : ReferenceDerived) × (derive_obligations_pure_python nodes edges s bound ≡ some r)
      × ((k : Text)
          → Memᴰ k r.derived_obligations ↔ CoreDerived nodes edges bound s node_obligation k)
      × ((k : Text)
          → Memᴰ k r.derived_controls ↔ CoreDerived nodes edges bound s node_control_type k)
unfolding derive_obligations_pure_python collected
reference-agrees nodes edges s bound plain =
    let (t, ends) = walk_returns nodes edges bound s in
    (collected t, rw ends, λ k. obligations t ends k, λ k. controls t ends k)
  where
    other :
        (t k : Text)
        → ((t ≢ node_obligation) × (t ≢ node_control_type) → ⊥)
        → (v : ℕ) → Names t k (node_lookup nodes v)
        → v ≢ s
    other t k stop v n e = stop (
        not-Names (node_lookup nodes s) t k plain
          (subst (λ x. Names t k (node_lookup nodes x)) e n))

    obligations :
        (t : Deriving)
        → walk nodes edges bound s ≡ some t
        → (k : Text)
        → Memᴰ k (sorted text_le t.derived_obligations)
          ↔ CoreDerived nodes edges bound s node_obligation k
    obligations t ends k =
        let (to, from) =
          walk_output nodes edges bound s (λ v. Names node_obligation k (node_lookup nodes v))
            (λ w. Memᴰ k w.derived_obligations) (λ w v. obligation_noted k w (node_lookup nodes v))
            (λ w fs. (λ m. m, λ m. m)) t ends Memᴰ.not-nil
            (other node_obligation k (λ h. h.0 refl)) in
        (
          λ m. to ((mem-sorted text_le k t.derived_obligations).0 m),
          λ r. (mem-sorted text_le k t.derived_obligations).1 (from r),
        )

    controls :
        (t : Deriving)
        → walk nodes edges bound s ≡ some t
        → (k : Text)
        → Memᴰ k (sorted text_le t.derived_controls)
          ↔ CoreDerived nodes edges bound s node_control_type k
    controls t ends k =
        let (to, from) =
          walk_output nodes edges bound s (λ v. Names node_control_type k (node_lookup nodes v))
            (λ w. Memᴰ k w.derived_controls) (λ w v. control_noted k w (node_lookup nodes v))
            (λ w fs. (λ m. m, λ m. m)) t ends Memᴰ.not-nil
            (other node_control_type k (λ h. h.1 refl)) in
        (
          λ m. to ((mem-sorted text_le k t.derived_controls).0 m),
          λ r. (mem-sorted text_le k t.derived_controls).1 (from r),
        )
