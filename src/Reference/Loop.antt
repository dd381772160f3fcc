-- ===== src/Reference/Loop.antt =====
-- core-side-patch/reference_traversal_cte.py: the `while` loop ends within `fuel` rounds.
use native.Mathlib.Nat.{pow-suc, one-le-pow, sub-zero}
use p2_ai_knowledge_graph_fo.Base.{
  ℕ, suc, ◌+◌, ◌-◌, ◌*◌, ◌^◌, ◌≤◌, ◌<◌, ◌≡◌, inl, inr, List, [], ◌∷◌, foldl, keep_if, some, length,
  length-keep_if-le, length-map, leb, arith, Bool-cases, ◌==◌, ◌&&◌, nat_eq,
}
use p2_ai_knowledge_graph_fo.Worklist.{run_ends}
use p2_ai_knowledge_graph_fo.Reference.{
  NodeEntry, EdgeEntry, Frame, Deriving, node_lookup, outgoing, follow, expand, fuel, walk, initial,
}
use p2_ai_knowledge_graph_fo.Reference.Step.{stack-note_node}

length-outgoing-le : (edges : List EdgeEntry) (i : ℕ) → length (outgoing edges i) ≤ length edges
unfolding outgoing
length-outgoing-le edges i =
    let from_i = λ (e : EdgeEntry). e.is_active && (e.source_id == i) in
    omega (
      arith,
      length-map (λ (e : EdgeEntry). e.target_id) (keep_if from_i edges),
      length-keep_if-le from_i edges,
    )

product_room : (n e w : ℕ) → n ≤ e → 1 ≤ w → suc (n * w) ≤ w * suc e
product_room n e w h p = grind arith

module _ (nodes : List NodeEntry) (edges : List EdgeEntry) (max : ℕ) where
  -- How many rounds a frame at this depth can cause.
  abbrev weight : ℕ → ℕ
  weight depth = suc (length edges) ^ (max - depth)

  abbrev work : List Frame → ℕ
  work [] = 0
  work (f ∷ fs) = weight f.depth + work fs

  work-follow :
      (f : Frame) (s : Deriving) (v : ℕ)
      → work (follow nodes edges max f s v).stack ≤ work s.stack + weight (f.depth + 1)
  unfolding follow
  work-follow f s v = ground (arith, stack-note_node (node_lookup nodes v) s)

  work-follow_all :
      (f : Frame) (s : Deriving) (vs : List ℕ)
      → work (foldl (follow nodes edges max f) s vs).stack
        ≤ work s.stack + length vs * weight (f.depth + 1)
  work-follow_all f s [] = omega arith
  work-follow_all f s (v ∷ vs) =
      omega (arith, work-follow f s v, work-follow_all f (follow nodes edges max f s v) vs)

  one_round : (n d : ℕ) → n ≤ length edges → d < max → suc (n * weight (d + 1)) ≤ weight d
  one_round n d h lt =
      let below : max - d ≡ suc (max - (d + 1)) = omega arith in
      rw (below, pow-suc)
        (product_room n (length edges) _ h (one-le-pow (max - (d + 1)) _ (omega arith)))

  work-expand :
      (s : Deriving) (f : Frame) (rest : List Frame)
      → s.stack ≡ f ∷ rest
      → suc (work (expand nodes edges max s f rest).stack) ≤ work s.stack
  unfolding expand
  work-expand s f rest e = elim (Bool-cases (leb max f.depth)) [
    | inl deep ↦ rw (e, deep) (omega (arith, one-le-pow (max - f.depth) (suc (length edges))))
    | inr more ↦
        let lt : f.depth < max = ground arith in
        rw (e, more)
          (omega (
            arith,
            work-follow_all f (record s { stack = rest }) (outgoing edges f.current_id),
            one_round (length (outgoing edges f.current_id)) f.depth
                (length-outgoing-le edges f.current_id) lt,
          ))
  ]

  pub walk_returns : (start : ℕ) → (t : Deriving) × (walk nodes edges max start ≡ some t)
  unfolding walk fuel
  walk_returns start =
      run_ends (λ s. s.stack) (expand nodes edges max) (λ s. work s.stack) work-expand _
        (initial start) (rw sub-zero (omega arith))
