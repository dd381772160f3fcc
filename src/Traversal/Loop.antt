-- ===== src/Traversal/Loop.antt =====
-- src/p2_satellite/traversal.py: the `while` loop ends within `fuel` rounds.
use native.Mathlib.Nat.{pow-suc, one-le-pow, sub-zero}
use p2_ai_knowledge_graph_fo.Base.{
  ℕ, suc, ◌+◌, ◌-◌, ◌*◌, ◌^◌, ◌≤◌, ◌≡◌, inl, inr, List, [], ◌∷◌, ◌++◌, foldl, some, Text, length,
  ltb, arith, ltb→lt, if◌then◌else◌, Bool-cases, list_eq, nat_eq,
}
use p2_ai_knowledge_graph_fo.Worklist.{run_ends}
use p2_ai_knowledge_graph_fo.Traversal.{
  DiGraph, EdgeData, Frame, Walking, follow_edge, expand, fuel, walk,
}
use p2_ai_knowledge_graph_fo.Traversal.Step.{stack-note_target}

product_room : (n e w : ℕ) → n ≤ e → 1 ≤ w → suc (n * w) ≤ w * suc e
product_room n e w h p = grind arith

module _ (g : DiGraph) (max : ℕ) where
  -- How many rounds a frame at this depth can cause.
  abbrev weight : ℕ → ℕ
  weight depth = suc g.number_of_edges ^ (max - depth)

  abbrev work : List Frame → ℕ
  work [] = 0
  work (f ∷ fs) = weight f.depth + work fs

  -- The frame that an edge pushes has this much work.
  abbrev push_work : ℕ → ℕ
  push_work depth = if ltb (depth + 1) max then weight (depth + 1) else 0

  work-follow_edge :
      (f : Frame) (s : Walking) (e : Text × EdgeData)
      → work (follow_edge g max f s e).stack ≤ work s.stack + push_work f.depth
  unfolding follow_edge
  work-follow_edge f s (v, d) =
      ground (arith, stack-note_target (g.node_data v) v (f.path ++ v ∷ []) s)

  work-follow_edges :
      (f : Frame) (s : Walking) (es : List (Text × EdgeData))
      → work (foldl (follow_edge g max f) s es).stack ≤ work s.stack + length es * push_work f.depth
  work-follow_edges f s [] = omega arith
  work-follow_edges f s (e ∷ es) =
      omega (arith, work-follow_edge f s e, work-follow_edges f (follow_edge g max f s e) es)

  one_round : (n d : ℕ) → n ≤ g.number_of_edges → suc (n * push_work d) ≤ weight d
  one_round n d h = elim (Bool-cases (ltb (d + 1) max)) [
    | inl deeper ↦ rw deeper (
        let below : max - d ≡ suc (max - (d + 1)) = omega (arith, ltb→lt (d + 1) max deeper) in
        rw (below, pow-suc)
          (product_room n g.number_of_edges _ h (one-le-pow (max - (d + 1)) _ (omega arith))))
    | inr last ↦ rw last (omega (arith, one-le-pow (max - d) (suc g.number_of_edges)))
  ]

  work-expand :
      (s : Walking) (f : Frame) (rest : List Frame)
      → s.stack ≡ f ∷ rest
      → suc (work (expand g max s f rest).stack) ≤ work s.stack
  unfolding expand
  work-expand s f rest e = rw e (
      omega (
        arith,
        work-follow_edges f (record s { stack = rest }) (g.out_edges f.current_node),
        one_round (length (g.out_edges f.current_node)) f.depth (g.out_edges_le f.current_node),
      ))

  pub walk_returns : (start : Text) → (t : Walking) × (walk g max start ≡ some t)
  unfolding walk fuel
  walk_returns start =
      run_ends (λ s. s.stack) (expand g max) (λ s. work s.stack) work-expand _ _
        (rw sub-zero (omega arith))
