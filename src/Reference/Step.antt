-- ===== src/Reference/Step.antt =====
-- core-side-patch/reference_traversal_cte.py: what one round of the loop adds.
use mathlib.Core.List.Memᴰ
use p2_ai_knowledge_graph_fo.Base.{
  ℕ, ◌+◌, ◌<◌, ◌≡◌, refl, ◌⊎◌, inl, inr, ⊎_elim, ◌↔◌, List, [], ◌∷◌, ◌++◌, Option, none, some, Text,
  contains, contains_iff, mem-add, Memᴰ, leb, arith, list_eq, nat_eq, Bool-cases, eq_iff,
}
use p2_ai_knowledge_graph_fo.Schema.{node_obligation, node_control_type}
use p2_ai_knowledge_graph_fo.Worklist.{foldl_outputs}
use p2_ai_knowledge_graph_fo.Reference.{
  NodeEntry, EdgeEntry, Frame, Deriving, node_lookup, outgoing, note_node, follow, expand,
}

-- An active row from `u` to `v`.
abbrev pub CoreEdge : List EdgeEntry → ℕ → ℕ → Type 0
CoreEdge edges u v = Memᴰ v (outgoing edges u)

-- The row of `v` has this type and key.
abbrev pub Names : Text → Text → Option NodeEntry → Type 0
Names t k none = ⊥
Names t k (some n) = (n.node_type ≡ t) × (n.node_key ≡ k)

module _ (k : Text) (s : Deriving) where
  pub obligation_noted :
      (o : Option NodeEntry)
      → Memᴰ k (note_node o s).derived_obligations
        ↔ (Memᴰ k s.derived_obligations ⊎ Names node_obligation k o)
  unfolding note_node
  obligation_noted none = (inl, ⊎_elim (λ m. m) (λ e. absurd e))
  obligation_noted (some n) =
      ground (arith, mem-add k n.node_key s.derived_obligations, eq_iff n.node_type node_obligation)

  pub control_noted :
      (o : Option NodeEntry)
      → Memᴰ k (note_node o s).derived_controls
        ↔ (Memᴰ k s.derived_controls ⊎ Names node_control_type k o)
  unfolding note_node
  control_noted none = (inl, ⊎_elim (λ m. m) (λ e. absurd e))
  control_noted (some n) = ground (
    arith,
    mem-add k n.node_key s.derived_controls,
    eq_iff n.node_type node_obligation,
    eq_iff n.node_type node_control_type,
  )

pub stack-note_node : (o : Option NodeEntry) (s : Deriving) → (note_node o s).stack ≡ s.stack
unfolding note_node
stack-note_node none s = refl
stack-note_node (some n) s = ground arith

module _ (nodes : List NodeEntry) (edges : List EdgeEntry) (max : ℕ) where
  abbrev pub child_frame : Frame → ℕ → Frame
  child_frame f v = record {
    current_id = v;
    path = f.path ++ f.current_id ∷ [];
    depth = f.depth + 1;
  }

  abbrev pub Child : Frame → Frame → Type 0
  Child f h =
      (v : ℕ) × CoreEdge edges f.current_id v
      × (¬ Memᴰ v f.path)
      × (f.depth < max)
      × (h ≡ child_frame f v)

  abbrev pub Emits : (ℕ → Type 0) → Frame → Type 0
  Emits P f = (v : ℕ) × CoreEdge edges f.current_id v × (¬ Memᴰ v f.path) × (f.depth < max) × P v

  follow-stack :
      (h f : Frame) (s : Deriving) (v : ℕ)
      → Memᴰ h (follow nodes edges max f s v).stack
        ↔ (Memᴰ h s.stack ⊎ (¬ Memᴰ v f.path) × (h ≡ child_frame f v))
  unfolding follow
  follow-stack h f s v = elim (Bool-cases (contains v f.path)) [
    | inl seen ↦ rw seen (inl, ⊎_elim (λ o. o) (λ t. absurd (t.0 ((contains_iff v f.path).0 seen))))
    | inr fresh ↦
        rw (fresh, stack-note_node (node_lookup nodes v) s)
          (
            λ m. elim (Memᴰ.cases_cons m) [
              | inl e ↦ inr (λ m'. cc (fresh, (contains_iff v f.path).1 m'), e)
              | inr old ↦ inl old
            ],
            ⊎_elim Memᴰ.tail (λ t. Memᴰ.head t.1),
          )
  ]

  pub expand-stack :
      (s : Deriving) (f : Frame) (rest : List Frame) (h : Frame)
      → Memᴰ h (expand nodes edges max s f rest).stack ↔ (Memᴰ h rest ⊎ Child f h)
  unfolding expand
  expand-stack s f rest h = elim (Bool-cases (leb max f.depth)) [
    | inl deep ↦ rw deep (inl, ⊎_elim (λ m. m) (λ t. absurd (ground arith)))
    | inr more ↦
        let lt : f.depth < max = ground arith in
        let (to, from) =
          foldl_outputs (follow nodes edges max f) (λ u. Memᴰ h u.stack)
            (λ v. (¬ Memᴰ v f.path) × (h ≡ child_frame f v)) (follow-stack h f)
            (record s { stack = rest }) (outgoing edges f.current_id) in
        rw more (
          λ m. ⊎_elim inl (λ (v, edge, (fresh, e)). inr (v, edge, fresh, lt, e)) (to m),
          ⊎_elim (λ m. from (inl m)) (λ (v, edge, fresh, _, e). from (inr (v, edge, (fresh, e)))),
        )
  ]

  module _ (Out : Deriving → Type 0) (P : ℕ → Type 0)
      (noted : (s : Deriving) (v : ℕ) → Out (note_node (node_lookup nodes v) s) ↔ (Out s ⊎ P v))
      (stackless : (s : Deriving) (fs : List Frame) → Out (record s { stack = fs }) ↔ Out s) where
    follow-Out :
        (f : Frame) (s : Deriving) (v : ℕ)
        → Out (follow nodes edges max f s v) ↔ (Out s ⊎ (¬ Memᴰ v f.path) × P v)
    unfolding follow
    follow-Out f s v = elim (Bool-cases (contains v f.path)) [
      | inl seen ↦
          rw seen (inl, ⊎_elim (λ o. o) (λ t. absurd (t.0 ((contains_iff v f.path).0 seen))))
      | inr fresh ↦
          let s' = note_node (node_lookup nodes v) s in
          let (to, from) = noted s v in
          let (push_to, push_from) = stackless s' (child_frame f v ∷ s'.stack) in
          rw fresh (
            λ o.
                ⊎_elim inl (λ p. inr (λ m'. cc (fresh, (contains_iff v f.path).1 m'), p))
                  (to (push_to o)),
            λ o. push_from (from (⊎_elim inl (λ t. inr t.1) o)),
          )
    ]

    pub expand-Out :
        (s : Deriving) (f : Frame) (rest : List Frame)
        → Out (expand nodes edges max s f rest) ↔ (Out s ⊎ Emits P f)
    unfolding expand
    expand-Out s f rest = elim (Bool-cases (leb max f.depth)) [
      | inl deep ↦ rw deep (
        λ o. inl ((stackless s rest).0 o),
        ⊎_elim (stackless s rest).1 (λ t. absurd (ground arith)),
      )
      | inr more ↦
          let lt : f.depth < max = ground arith in
          let (start_to, start_from) = stackless s rest in
          let (to, from) =
            foldl_outputs (follow nodes edges max f) Out (λ v. (¬ Memᴰ v f.path) × P v)
              (follow-Out f) (record s { stack = rest }) (outgoing edges f.current_id) in
          rw more (
            λ o.
                ⊎_elim (λ old. inl (start_to old))
                  (λ (v, edge, (fresh, p)). inr (v, edge, fresh, lt, p)) (to o),
            ⊎_elim (λ o. from (inl (start_from o)))
                (λ (v, edge, fresh, _, p). from (inr (v, edge, (fresh, p)))),
          )
    ]
