-- ===== src/Traversal/Correct.antt =====
-- src/p2_satellite/traversal.py: what `derive_obligations` returns, against walks in the graph.
use Prim.Native.Nat.{max}
use p2_ai_knowledge_graph_fo.Base.{
  ℕ, ◌≤◌, ◌≡◌, ◌≢◌, refl, ◌∙◌, inl, inr, ◌↔◌, true, false, List, Option, some, none, Text, length,
  Memᴰ, arith, list_eq, nat_eq, length-snoc, text_le, sorted, mem-sorted, Bool-cases,
}
use mathlib.Core.List.Memᴰ
use p2_ai_knowledge_graph_fo.Schema.{node_obligation, node_control_type, split_node_id}
use p2_ai_knowledge_graph_fo.Paths.{
  SimplePath, Walk, start, hop, Walk-of_SimplePath, SimplePath-of_Walk, hop-ne-start,
}
use p2_ai_knowledge_graph_fo.Traversal.{
  DiGraph, Walking, Derivation, Settings, walk, traverse, report, nothing_reachable,
  derive_obligations,
}
use p2_ai_knowledge_graph_fo.Traversal.Step.{ActiveEdge, HasType}
use p2_ai_knowledge_graph_fo.Traversal.Notes.{obligation_noted, control_noted}
use p2_ai_knowledge_graph_fo.Traversal.Loop.{walk_returns}
use p2_ai_knowledge_graph_fo.Traversal.Search.{Found, walk_output}

-- The bound that a call works with: the argument, or else the setting.
abbrev pub depth_of : Settings → Option ℕ → ℕ
depth_of settings none = settings.max_traversal_depth
depth_of settings (some d) = d

-- The walk from `s` to `v` along active edges has at most `max 1 bound` edges.
abbrev pub Reaches : DiGraph → ℕ → Text → Text → Type 0
Reaches g bound s v = (v ≢ s) × (n : ℕ) × Walk (ActiveEdge g) s n v × (n ≤ max 1 bound)

-- Some node of type `t` and key `k`, other than the start, is reached.
abbrev pub Derived : DiGraph → ℕ → Text → Text → Text → Type 0
Derived g bound s t k = (g.has_node s ≡ true) × ((v : Text) × Reaches g bound s v × HasType g t v k)

module _ (g : DiGraph) (bound : ℕ) (s : Text) (Q : Text → Type 0) where
  -- For what depends on the node alone, the simple paths reach what the walks reach.
  pub found_iff_Reaches : Found g bound s (λ v p. Q v) ↔ ((v : Text) × Reaches g bound s v × Q v)
  found_iff_Reaches = (
    λ (v, p, simple, two, short, q).
        let (n, w, l) = Walk-of_SimplePath simple in
        (v, (not_start simple two, n, w, omega arith), q),
    λ (v, (ne, n, w, short), q).
        let (p, simple, l) = SimplePath-of_Walk w in
        (v, p, simple, two_nodes simple ne, omega arith, q),
  )
    where
      not_start :
          {v : Text} {p : List Text} → SimplePath (ActiveEdge g) s p v → 2 ≤ length p → v ≢ s
      not_start start two = absurd (omega arith)
      not_start (hop simple e fresh eq) two = hop-ne-start simple fresh

      two_nodes :
          {v : Text} {p : List Text} → SimplePath (ActiveEdge g) s p v → v ≢ s → 2 ≤ length p
      two_nodes start ne = absurd (ne refl)
      two_nodes (hop {p = p} {v = v} simple e fresh eq) ne =
          let (n, w, l) = Walk-of_SimplePath simple in rw eq (omega (arith, length-snoc p v))

-- `_traverse` returns, and its two lists of keys are those of the nodes that walks reach.
module _ (g : DiGraph) (version s key : Text) (bound : ℕ) where
  abbrev AgreesWithWalks : Derivation → Type 0
  AgreesWithWalks d =
      (traverse g version s key bound ≡ some d)
      × ((k : Text) → Memᴰ k d.derived_obligations ↔ Derived g bound s node_obligation k)
      × ((k : Text) → Memᴰ k d.derived_controls ↔ Derived g bound s node_control_type k)

  traverse_present : g.has_node s ≡ true → (d : Derivation) × AgreesWithWalks d
  unfolding traverse report
  traverse_present present =
      let (t, ends) = walk_returns g bound s in
      (
        report g version key t,
        (rw (present, ends), λ k. obligations t ends k, λ k. controls t ends k),
      )
    where
      obligations :
          (t : Walking)
          → walk g bound s ≡ some t
          → (k : Text)
          → Memᴰ k (sorted text_le t.obligation_keys) ↔ Derived g bound s node_obligation k
      obligations t ends k =
          let (to, from) =
            walk_output g bound s (λ v p. HasType g node_obligation v k)
              (λ w. Memᴰ k w.obligation_keys) (λ w v p. obligation_noted k v p w (g.node_data v))
              (λ w fs. (λ m. m, λ m. m)) t ends Memᴰ.not-nil in
          let (to', from') = found_iff_Reaches g bound s (λ v. HasType g node_obligation v k) in
          (
            λ m. (present, to' (to ((mem-sorted text_le k t.obligation_keys).0 m))),
            λ (_, r). (mem-sorted text_le k t.obligation_keys).1 (from (from' r)),
          )

      controls :
          (t : Walking)
          → walk g bound s ≡ some t
          → (k : Text)
          → Memᴰ k (sorted text_le t.control_keys) ↔ Derived g bound s node_control_type k
      controls t ends k =
          let (to, from) =
            walk_output g bound s (λ v p. HasType g node_control_type v k)
              (λ w. Memᴰ k w.control_keys) (λ w v p. control_noted k v p w (g.node_data v))
              (λ w fs. (λ m. m, λ m. m)) t ends Memᴰ.not-nil in
          let (to', from') = found_iff_Reaches g bound s (λ v. HasType g node_control_type v k) in
          (
            λ m. (present, to' (to ((mem-sorted text_le k t.control_keys).0 m))),
            λ (_, r). (mem-sorted text_le k t.control_keys).1 (from (from' r)),
          )

  traverse_absent : g.has_node s ≡ false → (d : Derivation) × AgreesWithWalks d
  unfolding traverse nothing_reachable
  traverse_absent absent = (
    nothing_reachable version key,
    (
      rw absent,
      λ k. (λ m. absurd (Memᴰ.not-nil m), λ r. cc (absent, r.0)),
      λ k. (λ m. absurd (Memᴰ.not-nil m), λ r. cc (absent, r.0)),
    ),
  )

  pub traverse_agrees : (d : Derivation) × AgreesWithWalks d
  traverse_agrees = elim (Bool-cases (g.has_node s)) [
    | inl p ↦ traverse_present p
    | inr a ↦ traverse_absent a
  ]

pub derive_obligations-eq :
    (settings : Settings) (g : DiGraph) (s : Text) (m : Option ℕ)
    → derive_obligations settings g s m
      ≡ traverse g settings.methodology_version s (split_node_id s).1 (depth_of settings m)
unfolding derive_obligations
derive_obligations-eq settings g s none = refl
derive_obligations-eq settings g s (some d) = refl

-- For every graph, start and bound `derive_obligations` returns, and its obligations (controls) are
-- the keys of the obligation (control type) nodes other than the start that some walk of active
-- edges reaches within the bound; none if the start is not in the graph. A bound of 0 acts as 1.
pub derive_obligations-agrees :
    (settings : Settings) (g : DiGraph) (s : Text) (m : Option ℕ)
    → (d : Derivation) × (derive_obligations settings g s m ≡ some d)
      × ((k : Text)
          → Memᴰ k d.derived_obligations ↔ Derived g (depth_of settings m) s node_obligation k)
      × ((k : Text)
          → Memᴰ k d.derived_controls ↔ Derived g (depth_of settings m) s node_control_type k)
derive_obligations-agrees settings g s m =
    let (d, agrees) =
      traverse_agrees g settings.methodology_version s (split_node_id s).1 (depth_of settings m) in
    (d, derive_obligations-eq settings g s m ∙ agrees.0, agrees.1, agrees.2)
