-- ===== src/BreadthFirst/Follow.antt =====
-- core-side-patch/graph_query.py: what the `for` loop of a round keeps in the queue and adds to the ids seen.
use mathlib.Core.List.Memᴰ
use p2_ai_knowledge_graph_fo.Base.{
  ℕ, ◌+◌, ◌≡◌, ◌⊎◌, inl, inr, ⊎_elim, ◌↔◌, List, foldl, contains, contains_iff, Memᴰ, mem-snoc,
  Bool-cases, nat_eq,
}
use p2_ai_knowledge_graph_fo.Worklist.{foldl_invariant, foldl_outputs}
use p2_ai_knowledge_graph_fo.BreadthFirst.{Entry, Searching, visit, follow_edge}
use p2_ai_knowledge_graph_fo.BreadthFirst.Visit.{entry}

module _ {E X : Type 0} (edges_of : ℕ → List E) (far_end : E → ℕ) (note_edge : E → X → X)
    (note_node : ℕ → X → X) (max_depth : ℕ) where
  abbrev pub follow_all : ℕ → Searching X → List E → Searching X
  follow_all depth = foldl (follow_edge edges_of far_end note_edge note_node max_depth depth)

  -- An entry stays in the queue, and every far end is seen.
  pub queued-follow_all :
      (g : Entry) (depth : ℕ) (s : Searching X) (es : List E)
      → Memᴰ g s.queue
      → Memᴰ g (follow_all depth s es).queue
  unfolding follow_edge visit
  queued-follow_all g depth s es =
      foldl_invariant (follow_edge edges_of far_end note_edge note_node max_depth depth)
        (λ u. Memᴰ g u.queue)
        (λ u e m. elim (Bool-cases (contains (far_end e) u.seen)) [
          | inl old ↦ rw old m
          | inr new ↦ rw new ((mem-snoc g (entry (far_end e) (depth + 1)) u.queue).1 (inl m))
        ])
        s es

  pub seen-follow_all :
      (v depth : ℕ) (s : Searching X) (es : List E)
      → Memᴰ v (follow_all depth s es).seen
        ↔ (Memᴰ v s.seen ⊎ ((e : E) × Memᴰ e es × (v ≡ far_end e)))
  unfolding follow_edge visit
  seen-follow_all v depth =
      foldl_outputs (follow_edge edges_of far_end note_edge note_node max_depth depth)
        (λ u. Memᴰ v u.seen) (λ e. v ≡ far_end e)
        (λ u e. elim (Bool-cases (contains (far_end e) u.seen)) [
          | inl old ↦
              rw old
                (inl, ⊎_elim (λ m. m) (λ p. Memᴰ.cast p ((contains_iff (far_end e) u.seen).0 old)))
          | inr new ↦ rw new (mem-snoc v (far_end e) u.seen)
        ])
