-- ===== src/Traversal/Reports.antt =====
-- src/p2_satellite/traversal.py: the paths that `derive_obligations` reports.
use Prim.Native.Nat.{max}
use mathlib.Core.List.Memᴰ
use p2_ai_knowledge_graph_fo.Base.{
  ℕ, suc, ◌≤◌, ◌≡◌, refl, sym, ap, ◌∙◌, subst, inl, inr, ◌↔◌, true, ◌+◌, ◌++◌, contains, ltb, List,
  [], ◌∷◌, Option, some, none, Text, length, Memᴰ, arith, list_eq, nat_eq, Bool-cases, Distinct,
  Distinct-add,
}
use p2_ai_knowledge_graph_fo.Schema.{split_node_id}
use p2_ai_knowledge_graph_fo.Paths.{SimplePath}
use p2_ai_knowledge_graph_fo.Worklist.{run_invariant, foldl_invariant}
use p2_ai_knowledge_graph_fo.Traversal.{
  DiGraph, EdgeData, NodeData, Frame, Walking, Derivation, Settings, edge_is_active, add_key,
  add_path, add_regulation, note_target, follow_edge, expand, fuel, initial, walk, traverse, report,
  nothing_reachable, derive_obligations,
}
use p2_ai_knowledge_graph_fo.Traversal.Step.{ActiveEdge}
use p2_ai_knowledge_graph_fo.Traversal.Notes.{
  IsTerminal, path_noted, PathsAgree, note_target-PathsAgree,
}
use p2_ai_knowledge_graph_fo.Traversal.Loop.{walk_returns}
use p2_ai_knowledge_graph_fo.Traversal.Search.{walk_output}
use p2_ai_knowledge_graph_fo.Traversal.Correct.{depth_of, derive_obligations-eq}

-- The recorded paths are distinct, and `terminal_paths` repeats `seen_terminal_paths`.
record PathsKept (s : Walking) : Type 0 where
  agree : PathsAgree s
  distinct : Distinct s.seen_terminal_paths

note_target-Distinct :
    (o : Option NodeData) (v : Text) (p : List Text) (s : Walking)
    → Distinct s.seen_terminal_paths
    → Distinct (note_target o v p s).seen_terminal_paths
unfolding note_target add_key add_path add_regulation
note_target-Distinct none v p s h = h
note_target-Distinct (some d) v p s h = ground (arith, Distinct-add p s.seen_terminal_paths h)

module _ (g : DiGraph) (bound : ℕ) where
  follow_edge-PathsKept :
      (f : Frame) (s : Walking) (e : Text × EdgeData)
      → PathsKept s
      → PathsKept (follow_edge g bound f s e)
  unfolding follow_edge
  follow_edge-PathsKept f s (v, d) h =
      let noted : PathsKept (note_target (g.node_data v) v (f.path ++ v ∷ []) s) = record {
        agree = note_target-PathsAgree (g.node_data v) v (f.path ++ v ∷ []) s h.agree;
        distinct = note_target-Distinct (g.node_data v) v (f.path ++ v ∷ []) s h.distinct;
      } in
      elim (Bool-cases (edge_is_active d)) [
        | inr off ↦ rw off h
        | inl on ↦ elim (Bool-cases (contains v f.path)) [
          | inl seen ↦ rw (on, seen) h
          | inr fresh ↦ elim (Bool-cases (ltb (f.depth + 1) bound)) [
            | inl deeper ↦
                rw (on, fresh, deeper) (record { agree = noted.agree; distinct = noted.distinct })
            | inr last ↦ rw (on, fresh, last) noted
          ]
        ]
      ]

  walk-PathsKept : (s : Text) (t : Walking) → walk g bound s ≡ some t → PathsKept t
  unfolding walk expand
  walk-PathsKept s t h =
      let (kept, _) =
        run_invariant (λ w. w.stack) (expand g bound) PathsKept
          (λ w f rest e k.
            foldl_invariant (follow_edge g bound f) PathsKept (follow_edge-PathsKept f)
              (record w { stack = rest }) (g.out_edges f.current_node)
              (record { agree = k.agree; distinct = k.distinct }))
          (fuel g bound) (initial s) t (record { agree = refl; distinct = tt }) h in
      kept

-- A path that `graph_path` should hold: simple, from the start, to an obligation or a control type.
abbrev pub TerminalPath : DiGraph → ℕ → Text → List Text → Type 0
TerminalPath g bound s p =
    (g.has_node s ≡ true)
    × ((v : Text) × SimplePath (ActiveEdge g) s p v
        × (2 ≤ length p)
        × (length p ≤ suc (max 1 bound))
        × IsTerminal (g.node_data v))

module _ (g : DiGraph) (version s key : Text) (bound : ℕ) where
  abbrev PathsExact : Derivation → Type 0
  PathsExact d =
      (traverse g version s key bound ≡ some d)
      × Distinct d.graph_path
      × ((p : List Text) → Memᴰ p d.graph_path ↔ TerminalPath g bound s p)

  traverse_paths : (d : Derivation) × PathsExact d
  unfolding traverse report nothing_reachable
  traverse_paths = elim (Bool-cases (g.has_node s)) [
    | inl present ↦
        let (t, ends) = walk_returns g bound s in
        let kept = walk-PathsKept g bound s t ends in
        (
          report g version key t,
          (
            rw (present, ends),
            rw kept.agree kept.distinct,
            λ q.
                let (to, from) =
                  walk_output g bound s (λ v p. (q ≡ p) × IsTerminal (g.node_data v))
                    (λ w. Memᴰ q w.seen_terminal_paths)
                    (λ w v p. path_noted v p w q (g.node_data v)) (λ w fs. (λ m. m, λ m. m)) t ends
                    Memᴰ.not-nil in
                (
                  λ m.
                      let (v, p, simple, two, short, (e, ends_well)) =
                        to (subst (Memᴰ q) kept.agree m) in
                      (
                        present,
                        (
                          v,
                          subst (λ x. SimplePath (ActiveEdge g) s x v) (sym e) simple,
                          omega (arith, ap length e),
                          omega (arith, ap length e),
                          ends_well,
                        ),
                      ),
                  λ (_, (v, simple, two, short, ends_well)).
                      subst (Memᴰ q) (sym kept.agree)
                        (from (v, q, simple, two, short, (refl, ends_well))),
                ),
          ),
        )
    | inr absent ↦ (
      nothing_reachable version key,
      (rw absent, tt, λ p. (λ m. absurd (Memᴰ.not-nil m), λ r. cc (absent, r.0))),
    )
  ]

-- `graph_path` holds, each once, exactly the simple paths of active edges from the start to an
-- obligation or a control type that have at least one and at most `max 1 bound` edges; none if the
-- start is not in the graph.
pub graph_path-exact :
    (settings : Settings) (g : DiGraph) (s : Text) (m : Option ℕ)
    → (d : Derivation) × (derive_obligations settings g s m ≡ some d)
      × Distinct d.graph_path
      × ((p : List Text) → Memᴰ p d.graph_path ↔ TerminalPath g (depth_of settings m) s p)
graph_path-exact settings g s m =
    let (d, exact) =
      traverse_paths g settings.methodology_version s (split_node_id s).1 (depth_of settings m) in
    (d, derive_obligations-eq settings g s m ∙ exact.0, exact.1, exact.2)
