-- ===== src/BreadthFirst/Visit.antt =====
-- core-side-patch/graph_query.py: the invariant of the breadth-first loop, and that one visit keeps it.
use mathlib.Core.List.Memᴰ
use p2_ai_knowledge_graph_fo.Base.{
  ℕ, ◌+◌, ◌≤◌, ◌<◌, ◌≡◌, refl, ap, subst, ◌⊎◌, inl, inr, List, [], ◌∷◌, ◌++◌, foldl, contains, Memᴰ,
  mem-snoc, arith, Bool-cases, nat_eq,
}
use p2_ai_knowledge_graph_fo.Paths.{Walk, step}
use p2_ai_knowledge_graph_fo.BreadthFirst.{Entry, Searching, visit, follow_edge}

abbrev pub entry : ℕ → ℕ → Entry
entry id depth = record { current_id = id; depth = depth }

-- The queue is in the order of depth.
abbrev pub Ordered : List Entry → Type 0
Ordered [] = Unit
Ordered (f ∷ fs) = ((g : Entry) → Memᴰ g fs → f.depth ≤ g.depth) × Ordered fs

Ordered-snoc :
    (fs : List Entry) (g : Entry)
    → Ordered fs
    → ((f : Entry) → Memᴰ f fs → f.depth ≤ g.depth)
    → Ordered (fs ++ g ∷ [])
Ordered-snoc [] g o below = (λ h m. absurd (Memᴰ.not-nil m), tt)
Ordered-snoc (f ∷ fs) g o below = (
  λ h m. elim ((mem-snoc h g fs).0 m) [
    | inl old ↦ o.0 h old
    | inr e ↦ rw e (below f (Memᴰ.head refl))
  ],
  Ordered-snoc fs g o.1 (λ h m. below h (Memᴰ.tail m)),
)

-- An entry that has left the queue or is in it.
abbrev pub Logged : {X : Type 0} → List Entry → Searching X → Entry → Type 0
Logged done s g = Memᴰ g done ⊎ Memᴰ g s.queue

-- An edge from `u` to `v` that the search follows.
abbrev pub FollowedEdge : {E : Type 0} → (ℕ → List E) → (E → ℕ) → ℕ → ℕ → Type 0
FollowedEdge {E} edges_of far_end u v = (e : E) × Memᴰ e (edges_of u) × (far_end e ≡ v)

module _ {E X : Type 0} (edges_of : ℕ → List E) (far_end : E → ℕ) (note_edge : E → X → X)
    (note_node : ℕ → X → X) (max_depth : ℕ) (start : ℕ) where
  abbrev Edge : ℕ → ℕ → Type 0
  Edge = FollowedEdge edges_of far_end

  -- While the edges of the last entry of `done`, of this depth, are followed.
  pub record Visiting (done : List Entry) (depth : ℕ) (s : Searching X) : Type 0 where
    pub root : Logged done s (entry start 0)
    pub seen_to : (v : ℕ) → Memᴰ v s.seen → (d : ℕ) × Logged done s (entry v d)
    pub seen_from : (g : Entry) → Logged done s g → Memᴰ g.current_id s.seen
    pub reached : (g : Entry) → Logged done s g → Walk Edge start g.depth g.current_id
    pub bounded : (g : Entry) → Logged done s g → g.depth ≤ max_depth
    pub near : (g : Entry) → Logged done s g → g.depth ≤ depth + 1
    pub ahead : (g : Entry) → Memᴰ g s.queue → depth ≤ g.depth
    pub ordered : Ordered s.queue

  module _ (done : List Entry) (u depth : ℕ) (at : Walk Edge start depth u)
      (deeper : depth < max_depth) where
    queue_snoc :
        (s : Searching X) (v : ℕ) (g : Entry)
        → (Memᴰ g done ⊎ Memᴰ g (s.queue ++ entry v (depth + 1) ∷ []))
        → Logged done s g ⊎ (g ≡ entry v (depth + 1))
    queue_snoc s v g (inl old) = inl (inl old)
    queue_snoc s v g (inr m) = elim ((mem-snoc g (entry v (depth + 1)) s.queue).0 m) [
      | inl old ↦ inl (inr old)
      | inr e ↦ inr e
    ]

    queue_still :
        (s : Searching X) (v : ℕ) (g : Entry)
        → Logged done s g
        → Memᴰ g done ⊎ Memᴰ g (s.queue ++ entry v (depth + 1) ∷ [])
    queue_still s v g (inl old) = inl old
    queue_still s v g (inr m) = inr ((mem-snoc g (entry v (depth + 1)) s.queue).1 (inl m))

    visit_new :
        (s : Searching X) (v : ℕ)
        → Edge u v
        → Visiting done depth s
        → Visiting done depth (record {
          seen = s.seen ++ v ∷ [];
          noted = note_node v s.noted;
          queue = s.queue ++ entry v (depth + 1) ∷ [];
        })
    visit_new s v edge i = record {
      root = queue_still s v (entry start 0) i.root;
      seen_to = λ w m. elim ((mem-snoc w v s.seen).0 m) [
        | inl old ↦ let (d, l) = i.seen_to w old in (d, queue_still s v (entry w d) l)
        | inr e ↦ (
          depth + 1,
          rw e (inr ((mem-snoc (entry v (depth + 1)) (entry v (depth + 1)) s.queue).1 (inr refl))),
        )
      ];
      seen_from = λ g l. (mem-snoc g.current_id v s.seen).1 (elim (queue_snoc s v g l) [
        | inl old ↦ inl (i.seen_from g old)
        | inr e ↦ inr (ap (λ (h : Entry). h.current_id) e)
      ]);
      reached = λ g l. elim (queue_snoc s v g l) [
        | inl old ↦ i.reached g old
        | inr e ↦ rw e (subst (λ d. Walk Edge start d v) (omega arith) (step at edge))
      ];
      bounded = λ g l. elim (queue_snoc s v g l) [
        | inl old ↦ i.bounded g old
        | inr e ↦ rw e (omega arith)
      ];
      near =
          λ g l. elim (queue_snoc s v g l) [ inl old ↦ i.near g old | inr e ↦ rw e (omega arith) ];
      ahead = λ g m. elim ((mem-snoc g (entry v (depth + 1)) s.queue).0 m) [
        | inl old ↦ i.ahead g old
        | inr e ↦ rw e (omega arith)
      ];
      ordered = Ordered-snoc s.queue (entry v (depth + 1)) i.ordered (λ g m. i.near g (inr m));
    }

    visit-Visiting :
        (s : Searching X) (v : ℕ)
        → Edge u v
        → Visiting done depth s
        → Visiting done depth (visit edges_of far_end note_edge note_node max_depth depth s v)
    unfolding visit
    visit-Visiting s v edge i = elim (Bool-cases (contains v s.seen)) [
      | inl old ↦ rw old i
      | inr new ↦ rw new (visit_new s v edge i)
    ]

    -- What the invariant says does not depend on what is noted.
    noting :
        (s : Searching X) (x : X)
        → Visiting done depth s
        → Visiting done depth (record s { noted = x })
    noting s x i = record {
      root = i.root;
      seen_to = i.seen_to;
      seen_from = i.seen_from;
      reached = i.reached;
      bounded = i.bounded;
      near = i.near;
      ahead = i.ahead;
      ordered = i.ordered;
    }

    pub follow_all-Visiting :
        (s : Searching X) (es : List E)
        → ((e : E) → Memᴰ e es → Memᴰ e (edges_of u))
        → Visiting done depth s
        → Visiting done depth
            (foldl (follow_edge edges_of far_end note_edge note_node max_depth depth) s es)
    unfolding follow_edge
    follow_all-Visiting s [] sub i = i
    follow_all-Visiting s (e ∷ es) sub i =
        follow_all-Visiting (follow_edge edges_of far_end note_edge note_node max_depth depth s e)
          es (λ d m. sub d (Memᴰ.tail m))
          (visit-Visiting (record s { noted = note_edge e s.noted }) (far_end e)
            (e, sub e (Memᴰ.head refl), refl) (noting s (note_edge e s.noted) i))
