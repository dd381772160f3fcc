-- ===== src/BreadthFirst/Exact.antt =====
-- core-side-patch/graph_query.py: what the breadth-first loop has seen and noted when it ends.
use mathlib.Core.List.Memᴰ
use p2_ai_knowledge_graph_fo.Base.{
  ℕ, suc, ◌≤◌, ◌<◌, ◌≡◌, subst, ◌⊎◌, inl, inr, ⊎_elim, ◌↔◌, List, [], ◌∷◌, ◌++◌, some, Memᴰ, arith,
  leb, contains, Bool-cases, nat_eq,
}
use p2_ai_knowledge_graph_fo.Paths.{Walk, here, step}
use p2_ai_knowledge_graph_fo.Worklist.{run_invariant, foldl_invariant}
use p2_ai_knowledge_graph_fo.BreadthFirst.{
  Entry, Searching, visit, follow_edge, expand, initial, search,
}
use p2_ai_knowledge_graph_fo.BreadthFirst.Visit.{entry, Logged, FollowedEdge}
use p2_ai_knowledge_graph_fo.BreadthFirst.Rounds.{Between, expand-Between, initial-Between}

module _ {E X : Type 0} (edges_of : ℕ → List E) (far_end : E → ℕ) (note_edge : E → X → X)
    (note_node : ℕ → X → X) (max_depth number_of_edges start : ℕ) (nothing : X) (t : Searching X)
    (found : search edges_of far_end note_edge note_node max_depth number_of_edges start nothing
      ≡ some t) where
  -- A node that a walk of at most `max_depth` edges leads to.
  abbrev pub Reached : ℕ → Type 0
  Reached v = (n : ℕ) × Walk (FollowedEdge edges_of far_end) start n v × (n ≤ max_depth)

  -- What is true of the variables before the loop and kept where one changes is true after it.
  pub search_invariant :
      (Q : List ℕ → X → Type 0)
      → ((seen : List ℕ) (x : X) (e : E) → Q seen x → Q seen (note_edge e x))
      → ((seen : List ℕ) (x : X) (v : ℕ) → Q seen x → Q (seen ++ v ∷ []) (note_node v x))
      → Q (start ∷ []) nothing
      → Q t.seen t.noted
  unfolding search expand follow_edge visit
  search_invariant Q edge node first =
      (run_invariant (λ s. s.queue) (expand edges_of far_end note_edge note_node max_depth)
        (λ s. Q s.seen s.noted)
        (λ s f rest e q. elim (Bool-cases (leb max_depth f.depth)) [
          | inl deep ↦ rw deep q
          | inr more ↦ rw more (
              foldl_invariant (follow_edge edges_of far_end note_edge note_node max_depth f.depth)
                (λ s. Q s.seen s.noted)
                (λ u d p. elim (Bool-cases (contains (far_end d) u.seen)) [
                  | inl old ↦ rw old (edge u.seen u.noted d p)
                  | inr new ↦
                      rw new
                        (node u.seen (note_edge d u.noted) (far_end d) (edge u.seen u.noted d p))
                ])
                (record s { queue = rest }) (edges_of f.current_id) q)
        ])
        (suc number_of_edges) (initial edges_of far_end note_edge note_node max_depth start nothing)
        t first found).0

  module _ (Out : X → Type 0) (P : E → Type 0)
      (edge_noted : (e : E) (x : X) → Out (note_edge e x) ↔ (Out x ⊎ P e))
      (node_noted : (v : ℕ) (x : X) → Out (note_node v x) ↔ Out x) where
    abbrev Ended : Searching X → Type 0
    Ended =
        Between edges_of far_end note_edge note_node max_depth start nothing Out P edge_noted
          node_noted

    last : Ended t × (t.queue ≡ [])
    unfolding search
    last =
        run_invariant (λ s. s.queue) (expand edges_of far_end note_edge note_node max_depth) Ended
          (expand-Between edges_of far_end note_edge note_node max_depth start nothing Out P
            edge_noted node_noted)
          (suc number_of_edges)
          (initial edges_of far_end note_edge note_node max_depth start nothing) t
          (initial-Between edges_of far_end note_edge note_node max_depth start nothing Out P
            edge_noted node_noted)
          found

    all_done : (g : Entry) → Logged last.0.done t g → Memᴰ g last.0.done
    all_done g l = elim l [
      | inl old ↦ old
      | inr m ↦ absurd (Memᴰ.not-nil (subst (Memᴰ g) last.1 m))
    ]

    -- A walk's end is met at a depth of at most its length.
    met :
        {n v : ℕ}
        → Walk (FollowedEdge edges_of far_end) start n v
        → n ≤ max_depth
        → (d : ℕ) × (d ≤ n) × Memᴰ (entry v d) last.0.done
    met here le = (0, omega arith, all_done (entry start 0) last.0.visiting.root)
    met (step {n = n} {u = u} {v = v} w edge) le =
        let (d, shorter, m) = met w (omega arith) in
        let (k, l, near) = last.0.closed (entry u d) m (omega arith) v edge in
        (k, omega arith, all_done (entry v k) l)

    pub seen_exact : (v : ℕ) → Memᴰ v t.seen ↔ Reached v
    seen_exact v = (
      λ m.
          let (d, l) = last.0.visiting.seen_to v m in
          (d, last.0.visiting.reached (entry v d) l, last.0.visiting.bounded (entry v d) l),
      λ (n, w, le). let (d, shorter, m) = met w le in last.0.visiting.seen_from (entry v d) (inl m),
    )

    -- The output holds what it held at first, and what the edges out of each node add that a walk of
    -- less than `max_depth` edges leads to.
    pub noted_exact : Out t.noted ↔ (
        Out nothing
        ⊎ ((u n : ℕ) × Walk (FollowedEdge edges_of far_end) start n u
            × (n < max_depth)
            × ((e : E) × Memᴰ e (edges_of u) × P e)))
    noted_exact = (
      λ o. elim (last.0.out.0 o) [
        | inl first ↦ inl first
        | inr (g, m, lt, added) ↦
            inr (g.current_id, g.depth, last.0.visiting.reached g (inl m), lt, added)
      ],
      ⊎_elim (λ first. last.0.out.1 (inl first))
          (λ (u, n, w, lt, added).
            let (d, shorter, m) = met w (omega arith) in
            last.0.out.1 (inr (entry u d, m, omega arith, added))),
    )
