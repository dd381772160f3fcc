-- ===== src/BreadthFirst/Ends.antt =====
-- core-side-patch/graph_query.py: the breadth-first loop ends, since a node enters the queue once.
use mathlib.Core.List.Memᴰ
use p2_ai_knowledge_graph_fo.Base.{
  ℕ, suc, ◌+◌, ◌≤◌, ◌≡◌, refl, inl, inr, true, false, not, List, [], ◌∷◌, ◌++◌, foldl, some, length,
  keep_if, contains, contains_iff, Memᴰ, arith, leb, Bool-cases, length-snoc, length-keep_if-le,
  nat_eq, mem-snoc, sym,
}
use p2_ai_knowledge_graph_fo.Worklist.{run_ends}
use p2_ai_knowledge_graph_fo.BreadthFirst.{
  Entry, Searching, visit, follow_edge, expand, initial, search,
}

-- How many of `ids` are not in `seen`.
abbrev unseen : List ℕ → List ℕ → ℕ
unseen ids seen = length (keep_if (λ v. not (contains v seen)) ids)

not_lost : (v id : ℕ) (seen : List ℕ) → contains v seen ≡ true → contains v (seen ++ id ∷ []) ≡ true
not_lost v id seen h =
    (contains_iff v (seen ++ id ∷ [])).1 ((mem-snoc v id seen).1 (inl ((contains_iff v seen).0 h)))

found : (id : ℕ) (seen : List ℕ) → contains id (seen ++ id ∷ []) ≡ true
found id seen = (contains_iff id (seen ++ id ∷ [])).1 ((mem-snoc id id seen).1 (inr refl))

unseen-le : (ids seen : List ℕ) (id : ℕ) → unseen ids (seen ++ id ∷ []) ≤ unseen ids seen
unseen-le [] seen id = omega arith
unseen-le (v ∷ ids) seen id = ground (arith, unseen-le ids seen id, not_lost v id seen)

unseen-lt :
    (ids seen : List ℕ) (id : ℕ)
    → Memᴰ id ids
    → contains id seen ≡ false
    → suc (unseen ids (seen ++ id ∷ [])) ≤ unseen ids seen
unseen-lt [] seen id m h = absurd (Memᴰ.not-nil m)
unseen-lt (v ∷ ids) seen id m h = elim (Memᴰ.cases_cons m) [
  | inl e ↦ rw (sym e, h, found id seen) (omega (arith, unseen-le ids seen id))
  | inr r ↦ ground (arith, unseen-lt ids seen id r h, not_lost v id seen)
]

module _ {E X : Type 0} (edges_of : ℕ → List E) (far_end : E → ℕ) (note_edge : E → X → X)
    (note_node : ℕ → X → X) (max_depth : ℕ) (ids : List ℕ)
    (in_ids : (u : ℕ) (e : E) → Memᴰ e (edges_of u) → Memᴰ (far_end e) ids) where
  -- What is in the queue, and what may still enter it.
  abbrev work : Searching X → ℕ
  work s = length s.queue + unseen ids s.seen

  work-visit :
      (depth : ℕ) (s : Searching X) (id : ℕ)
      → Memᴰ id ids
      → work (visit edges_of far_end note_edge note_node max_depth depth s id) ≤ work s
  unfolding visit
  work-visit depth s id m = elim (Bool-cases (contains id s.seen)) [
    | inl old ↦ rw old (omega arith)
    | inr new ↦ rw new (omega (arith, unseen-lt ids s.seen id m new, length-snoc s.queue))
  ]

  work-follow_all :
      (depth : ℕ) (s : Searching X) (es : List E)
      → ((e : E) → Memᴰ e es → Memᴰ (far_end e) ids)
      → work (foldl (follow_edge edges_of far_end note_edge note_node max_depth depth) s es)
        ≤ work s
  unfolding follow_edge
  work-follow_all depth s [] all_in = omega arith
  work-follow_all depth s (e ∷ es) all_in = omega (
    arith,
    work-visit depth (record s { noted = note_edge e s.noted }) (far_end e)
        (all_in e (Memᴰ.head refl)),
    work-follow_all depth (follow_edge edges_of far_end note_edge note_node max_depth depth s e) es
        (λ d m. all_in d (Memᴰ.tail m)),
  )

  work-expand :
      (s : Searching X) (f : Entry) (rest : List Entry)
      → s.queue ≡ f ∷ rest
      → suc (work (expand edges_of far_end note_edge note_node max_depth s f rest)) ≤ work s
  unfolding expand
  work-expand s f rest e = elim (Bool-cases (leb max_depth f.depth)) [
    | inl deep ↦ rw (e, deep) (omega arith)
    | inr more ↦
        rw (e, more)
          (omega (
            arith,
            work-follow_all f.depth (record s { queue = rest }) (edges_of f.current_id)
                (in_ids f.current_id),
          ))
  ]

  -- Where each edge leads to one of `ids`, the loop ends within one round for the start and one for
  -- each of `ids`, whatever the depth bound is and whatever is noted.
  pub search_returns :
      (start : ℕ) (nothing : X)
      → (t : Searching X) × (search edges_of far_end note_edge note_node max_depth
            (length ids)
            start
            nothing
          ≡ some t)
  unfolding search
  search_returns start nothing =
      run_ends (λ s. s.queue) (expand edges_of far_end note_edge note_node max_depth) work
        work-expand _ (initial edges_of far_end note_edge note_node max_depth start nothing)
        (omega (arith, length-keep_if-le (λ v. not (contains v (start ∷ []))) ids))
