-- ===== src/Traversal/Coverage.antt =====
-- src/p2_satellite/traversal.py: the coverage gaps that `derive_obligations` reports.
use mathlib.Core.List.Memᴰ
use p2_ai_knowledge_graph_fo.Base.{
  ℕ, ◌≡◌, refl, sym, ◌∙◌, subst, inl, inr, ◌↔◌, true, false, not, ◌==◌, Bool, List, Option, some,
  none, Text, Memᴰ, arith, eq_iff, list_eq, nat_eq, text_le, sorted, mem-sorted, mem-keep_if,
  Bool-cases, any-eq-true,
}
use p2_ai_knowledge_graph_fo.Schema.{node_regulation, edge_regulation_requires, split_node_id}
use p2_ai_knowledge_graph_fo.Traversal.{
  DiGraph, EdgeData, Walking, Derivation, Settings, edge_is_active, walk, traverse, report,
  nothing_reachable, derive_obligations, is_requires_edge, has_requires_edge, incomplete_coverage,
}
use p2_ai_knowledge_graph_fo.Traversal.Notes.{IsRegulation, IsRegulation-noted}
use p2_ai_knowledge_graph_fo.Traversal.Loop.{walk_returns}
use p2_ai_knowledge_graph_fo.Traversal.Search.{walk_output}
use p2_ai_knowledge_graph_fo.Traversal.Correct.{
  Reaches, depth_of, found_iff_Reaches, derive_obligations-eq,
}

-- Some active edge leads out of the regulation by `regulation_requires`.
abbrev pub Requires : DiGraph → Text → Type 0
Requires g r =
    (v : Text) × (d : EdgeData) × Memᴰ (v, d) (g.out_edges r)
    × (edge_is_active d ≡ true)
    × (d.edge_type ≡ some edge_regulation_requires)

requires_type_iff :
    (o : Option Text)
    → (elim o as (λ _. Bool) [ none ↦ false | some t ↦ t == edge_regulation_requires ] ≡ true)
      ↔ (o ≡ some edge_regulation_requires)
requires_type_iff none = (λ e. cc, λ e. cc)
requires_type_iff (some t) = ground (arith, eq_iff t edge_regulation_requires)

is_requires_edge_iff :
    (d : EdgeData)
    → (is_requires_edge d ≡ true)
      ↔ ((edge_is_active d ≡ true) × (d.edge_type ≡ some edge_regulation_requires))
unfolding is_requires_edge
is_requires_edge_iff d = ground (arith, requires_type_iff d.edge_type)

has_requires_edge_iff : (g : DiGraph) (r : Text) → (has_requires_edge g r ≡ true) ↔ Requires g r
unfolding has_requires_edge
has_requires_edge_iff g r =
    let (to, from) = any-eq-true (λ (e : Text × EdgeData). is_requires_edge e.1) (g.out_edges r) in
    (
      λ h.
          let ((v, d), m, e) = to h in
          let (on, typed) = (is_requires_edge_iff d).0 e in (v, d, m, on, typed),
      λ (v, d, m, on, typed). from ((v, d), m, (is_requires_edge_iff d).1 (on, typed)),
    )

-- A regulation without such an edge is reached from the start.
abbrev pub Gap : DiGraph → ℕ → Text → Text → Type 0
Gap g bound s r =
    (g.has_node s ≡ true) × Reaches g bound s r × IsRegulation (g.node_data r) × (¬ Requires g r)

abbrev pub gap_entry : Text → Text × Text
gap_entry r = (node_regulation, (split_node_id r).1)

incomplete_coverage_iff :
    (g : DiGraph) (ids : List Text) (e : Text × Text)
    → Memᴰ e (incomplete_coverage g ids)
      ↔ ((r : Text) × Memᴰ r ids × (¬ Requires g r) × (e ≡ gap_entry r))
unfolding incomplete_coverage
incomplete_coverage_iff g ids e =
    let open_end = λ (r : Text). not (has_requires_edge g r) in
    let kept = λ (r : Text). mem-keep_if open_end r (sorted text_le ids) in
    (
      λ m.
          let (r, listed, eq) = Memᴰ.of_map gap_entry _ m in
          let (visited, open_here) = (kept r).0 listed in
          (
            r,
            (mem-sorted text_le r ids).0 visited,
            λ q. cc (open_here, (has_requires_edge_iff g r).1 q),
            sym eq,
          ),
      λ (r, visited, none_leads, eq).
          let open_here : open_end r ≡ true =
            ground (arith, (has_requires_edge_iff g r).0, none_leads) in
          Memᴰ.cast eq
            (Memᴰ.map gap_entry ((kept r).1 ((mem-sorted text_le r ids).1 visited, open_here))),
    )

visited_iff :
    (g : DiGraph) (bound : ℕ) (s : Text) (t : Walking)
    → walk g bound s ≡ some t
    → (r : Text)
    → Memᴰ r t.visited_regulation_ids ↔ (Reaches g bound s r × IsRegulation (g.node_data r))
visited_iff g bound s t ends r =
    let (to, from) =
      walk_output g bound s (λ v p. (r ≡ v) × IsRegulation (g.node_data v))
        (λ w. Memᴰ r w.visited_regulation_ids) (λ w v p. IsRegulation-noted v p w r (g.node_data v))
        (λ w fs. (λ m. m, λ m. m)) t ends Memᴰ.not-nil in
    let (to', from') = found_iff_Reaches g bound s (λ v. (r ≡ v) × IsRegulation (g.node_data v)) in
    (
      λ m.
          let (v, reached, (eq, typed)) = to' (to m) in
          subst (λ x. Reaches g bound s x × IsRegulation (g.node_data x)) (sym eq) (reached, typed),
      λ (reached, typed). from (from' (r, reached, (refl, typed))),
    )

module _ (g : DiGraph) (version s key : Text) (bound : ℕ) where
  abbrev GapsExact : Derivation → Type 0
  GapsExact d =
      (traverse g version s key bound ≡ some d)
      × ((e : Text × Text)
          → Memᴰ e d.incomplete_coverage ↔ ((r : Text) × Gap g bound s r × (e ≡ gap_entry r)))

  traverse_gaps : (d : Derivation) × GapsExact d
  unfolding traverse report nothing_reachable incomplete_coverage
  traverse_gaps = elim (Bool-cases (g.has_node s)) [
    | inl present ↦
        let (t, ends) = walk_returns g bound s in
        (
          report g version key t,
          (
            rw (present, ends),
            λ e.
                let (to, from) = incomplete_coverage_iff g t.visited_regulation_ids e in
                (
                  λ m.
                      let (r, visited, open_end, eq) = to m in
                      let (reached, typed) = (visited_iff g bound s t ends r).0 visited in
                      (r, (present, reached, typed, open_end), eq),
                  λ (r, (_, reached, typed, open_end), eq).
                      from (r, (visited_iff g bound s t ends r).1 (reached, typed), open_end, eq),
                ),
          ),
        )
    | inr absent ↦ (
      nothing_reachable version key,
      (rw absent, λ p. (λ m. absurd (Memᴰ.not-nil m), λ (r, gap, _). cc (absent, gap.0))),
    )
  ]

-- `incomplete_coverage` holds exactly the entries of the regulations, other than the start, that
-- some walk of active edges reaches within `max 1 bound` edges and that no active
-- `regulation_requires` edge leaves; none if the start is not in the graph.
pub incomplete_coverage-exact :
    (settings : Settings) (g : DiGraph) (s : Text) (m : Option ℕ)
    → (d : Derivation) × (derive_obligations settings g s m ≡ some d)
      × ((e : Text × Text)
          → Memᴰ e d.incomplete_coverage
            ↔ ((r : Text) × Gap g (depth_of settings m) s r × (e ≡ gap_entry r)))
incomplete_coverage-exact settings g s m =
    let (d, exact) =
      traverse_gaps g settings.methodology_version s (split_node_id s).1 (depth_of settings m) in
    (d, derive_obligations-eq settings g s m ∙ exact.0, exact.1)
