-- ===== src/Traversal/Step.antt =====
-- src/p2_satellite/traversal.py: what one round of the `while` loop adds to each output and to the
-- stack.
use mathlib.Core.Bool.{false≢true}
use mathlib.Core.List.Memᴰ
use p2_ai_knowledge_graph_fo.Base.{
  ℕ, ◌+◌, ◌<◌, ◌≡◌, refl, sym, ◌⊎◌, inl, inr, ⊎_elim, ◌↔◌, true, false, List, [], ◌∷◌, ◌++◌, Option,
  none, some, Text, contains, contains_iff, ltb→lt, ltb→le, ltb, Memᴰ, arith, list_eq, nat_eq,
  Bool-cases,
}
use p2_ai_knowledge_graph_fo.Worklist.{foldl_outputs}
use p2_ai_knowledge_graph_fo.Traversal.{
  DiGraph, EdgeData, NodeData, Frame, Walking, edge_is_active, add_key, add_path, add_regulation,
  note_target, follow_edge, expand,
}

-- An active edge from `u` to `v`.
abbrev pub ActiveEdge : DiGraph → Text → Text → Type 0
ActiveEdge g u v = (d : EdgeData) × Memᴰ (v, d) (g.out_edges u) × (edge_is_active d ≡ true)

-- `v` is a node of the type `t` and the key `k`.
abbrev pub HasType : DiGraph → Text → Text → Text → Type 0
HasType g t v k = g.node_data v ≡ some (record { node_type = t; node_key = k })

not_mem_of_contains : {v : Text} {p : List Text} → contains v p ≡ false → ¬ Memᴰ v p
not_mem_of_contains {v} {p} h m = cc (h, (contains_iff v p).1 m)

contains_of_not_mem : {v : Text} {p : List Text} → ¬ Memᴰ v p → contains v p ≡ false
contains_of_not_mem {v} {p} h = elim (Bool-cases (contains v p)) [
  | inl seen ↦ absurd (h ((contains_iff v p).0 seen))
  | inr fresh ↦ fresh
]

pub stack-note_target :
    (o : Option NodeData) (v : Text) (p : List Text) (s : Walking)
    → (note_target o v p s).stack ≡ s.stack
unfolding note_target add_key add_path add_regulation
stack-note_target none v p s = refl
stack-note_target (some d) v p s = ground arith

module _ (g : DiGraph) (max : ℕ) where
  -- The frame that is pushed for an edge to `v`.
  abbrev pub child_frame : Frame → Text → Frame
  child_frame f v = record { current_node = v; path = f.path ++ v ∷ []; depth = f.depth + 1 }

  abbrev pub Child : Frame → Frame → Type 0
  Child f h =
      (v : Text) × ActiveEdge g f.current_node v
      × (¬ Memᴰ v f.path)
      × (f.depth + 1 < max)
      × (h ≡ child_frame f v)

  -- What an edge out of `f` adds to an output that gains `P v p` for a node `v` found by the path `p`.
  abbrev pub Emits : (Text → List Text → Type 0) → Frame → Type 0
  Emits P f =
      (v : Text) × ActiveEdge g f.current_node v × (¬ Memᴰ v f.path) × P v (f.path ++ v ∷ [])

  abbrev EdgeChild : Frame → Frame → Text × EdgeData → Type 0
  EdgeChild f h e =
      (edge_is_active e.1 ≡ true)
      × (contains e.0 f.path ≡ false)
      × (f.depth + 1 < max)
      × (h ≡ child_frame f e.0)

  follow_edge-stack :
      (h f : Frame) (s : Walking) (e : Text × EdgeData)
      → Memᴰ h (follow_edge g max f s e).stack ↔ (Memᴰ h s.stack ⊎ EdgeChild f h e)
  unfolding follow_edge
  follow_edge-stack h f s (v, d) = elim (Bool-cases (edge_is_active d)) [
    | inr off ↦ rw off (inl, ⊎_elim (λ o. o) (λ t. absurd (false≢true t.0)))
    | inl on ↦ elim (Bool-cases (contains v f.path)) [
      | inl seen ↦ rw (on, seen) (inl, ⊎_elim (λ o. o) (λ t. absurd (false≢true (sym t.1))))
      | inr fresh ↦
          let same = stack-note_target (g.node_data v) v (f.path ++ v ∷ []) s in
          elim (Bool-cases (ltb (f.depth + 1) max)) [
            | inl deeper ↦
                rw (on, fresh, deeper, same)
                  (
                    λ m. elim (Memᴰ.cases_cons m) [
                      | inl e ↦ inr (refl, refl, ltb→lt _ _ deeper, e)
                      | inr old ↦ inl old
                    ],
                    ⊎_elim Memᴰ.tail (λ t. Memᴰ.head t.3),
                  )
            | inr last ↦
                rw (on, fresh, last, same)
                  (
                    inl,
                    ⊎_elim (λ m. m)
                        (λ t. absurd (omega (arith, t.2, ltb→le (f.depth + 1) max last))),
                  )
          ]
    ]
  ]

  pub expand-stack :
      (s : Walking) (f : Frame) (rest : List Frame) (h : Frame)
      → Memᴰ h (expand g max s f rest).stack ↔ (Memᴰ h rest ⊎ Child f h)
  unfolding expand
  expand-stack s f rest h =
      let all_edges =
        foldl_outputs (follow_edge g max f) (λ u. Memᴰ h u.stack) (EdgeChild f h)
          (follow_edge-stack h f) (record s { stack = rest }) (g.out_edges f.current_node) in
      (
        λ o. elim (all_edges.0 o) [
          | inl old ↦ inl old
          | inr ((v, d), m, (on, fresh, lt, e)) ↦
              inr (v, (d, m, on), not_mem_of_contains fresh, lt, e)
        ],
        ⊎_elim (λ old. all_edges.1 (inl old))
            (λ (v, (d, m, on), fresh, lt, e).
              all_edges.1 (inr ((v, d), m, (on, contains_of_not_mem fresh, lt, e)))),
      )

  module _ (Out : Walking → Type 0) (P : Text → List Text → Type 0)
      (noted : (s : Walking) (v : Text) (p : List Text)
        → Out (note_target (g.node_data v) v p s) ↔ (Out s ⊎ P v p))
      (stackless : (s : Walking) (fs : List Frame) → Out (record s { stack = fs }) ↔ Out s) where
    abbrev EdgeEmits : Frame → Text × EdgeData → Type 0
    EdgeEmits f e =
        (edge_is_active e.1 ≡ true) × (contains e.0 f.path ≡ false) × P e.0 (f.path ++ e.0 ∷ [])

    follow_edge-Out :
        (f : Frame) (s : Walking) (e : Text × EdgeData)
        → Out (follow_edge g max f s e) ↔ (Out s ⊎ EdgeEmits f e)
    unfolding follow_edge
    follow_edge-Out f s (v, d) = elim (Bool-cases (edge_is_active d)) [
      | inr off ↦ rw off (inl, ⊎_elim (λ o. o) (λ t. absurd (false≢true t.0)))
      | inl on ↦ elim (Bool-cases (contains v f.path)) [
        | inl seen ↦ rw (on, seen) (inl, ⊎_elim (λ o. o) (λ t. absurd (false≢true (sym t.1))))
        | inr fresh ↦
            let s' = note_target (g.node_data v) v (f.path ++ v ∷ []) s in
            let (noted_to, noted_from) = noted s v (f.path ++ v ∷ []) in
            let (push_to, push_from) = stackless s' (child_frame f v ∷ s'.stack) in
            elim (Bool-cases (ltb (f.depth + 1) max)) [
              | inl deeper ↦
                  rw (on, fresh, deeper)
                    (
                      λ o. elim (noted_to (push_to o)) [
                        | inl old ↦ inl old
                        | inr p ↦ inr (refl, refl, p)
                      ],
                      λ o. push_from (noted_from (⊎_elim inl (λ t. inr t.2) o)),
                    )
              | inr last ↦
                  rw (on, fresh, last)
                    (
                      λ o. elim (noted_to o) [ inl old ↦ inl old | inr p ↦ inr (refl, refl, p) ],
                      λ o. noted_from (⊎_elim inl (λ t. inr t.2) o),
                    )
            ]
      ]
    ]

    pub expand-Out :
        (s : Walking) (f : Frame) (rest : List Frame)
        → Out (expand g max s f rest) ↔ (Out s ⊎ Emits P f)
    unfolding expand
    expand-Out s f rest =
        let all_edges =
          foldl_outputs (follow_edge g max f) Out (EdgeEmits f) (follow_edge-Out f)
            (record s { stack = rest }) (g.out_edges f.current_node) in
        let (start_to, start_from) = stackless s rest in
        (
          λ o. elim (all_edges.0 o) [
            | inl old ↦ inl (start_to old)
            | inr ((v, d), m, (on, fresh, p)) ↦ inr (v, (d, m, on), not_mem_of_contains fresh, p)
          ],
          ⊎_elim (λ old. all_edges.1 (inl (start_from old)))
              (λ (v, (d, m, on), fresh, p).
                all_edges.1 (inr ((v, d), m, (on, contains_of_not_mem fresh, p)))),
        )
