-- ===== src/BreadthFirst/Rounds.antt =====
-- core-side-patch/graph_query.py: the invariant between two rounds of the breadth-first loop.
use mathlib.Core.List.Memᴰ
use p2_ai_knowledge_graph_fo.Base.{
  ℕ, ◌+◌, ◌≤◌, ◌<◌, ◌≡◌, refl, ap, sym, subst, ◌⊎◌, inl, inr, ⊎_elim, ◌↔◌, List, [], ◌∷◌, contains,
  Memᴰ, mem-cons, arith, Bool-cases, nat_eq, leb,
}
use p2_ai_knowledge_graph_fo.Paths.{here}
use p2_ai_knowledge_graph_fo.Worklist.{foldl_outputs}
use p2_ai_knowledge_graph_fo.BreadthFirst.{Entry, Searching, visit, follow_edge, expand, initial}
use p2_ai_knowledge_graph_fo.BreadthFirst.Visit.{
  entry, Ordered, Logged, FollowedEdge, Visiting, follow_all-Visiting,
}
use p2_ai_knowledge_graph_fo.BreadthFirst.Follow.{follow_all, queued-follow_all, seen-follow_all}

module _ {E X : Type 0} (edges_of : ℕ → List E) (far_end : E → ℕ) (note_edge : E → X → X)
    (note_node : ℕ → X → X) (max_depth : ℕ) where
  module _ (start : ℕ) (nothing : X) (Out : X → Type 0) (P : E → Type 0)
      (edge_noted : (e : E) (x : X) → Out (note_edge e x) ↔ (Out x ⊎ P e))
      (node_noted : (v : ℕ) (x : X) → Out (note_node v x) ↔ Out x) where
    abbrev Edge : ℕ → ℕ → Type 0
    Edge = FollowedEdge edges_of far_end

    -- Some edge out of a node at less than the largest depth adds to the output.
    abbrev pub AddedBy : List Entry → Type 0
    AddedBy done =
        (g : Entry) × Memᴰ g done
        × (g.depth < max_depth)
        × ((e : E) × Memᴰ e (edges_of g.current_id) × P e)

    pub record Between (s : Searching X) : Type 0 where
      pub done : List Entry
      pub depth : ℕ
      pub visiting : Visiting edges_of far_end note_edge note_node max_depth start done depth s
      pub closed :
          (g : Entry)
          → Memᴰ g done
          → g.depth < max_depth
          → (v : ℕ) → Edge g.current_id v
          → (d : ℕ) × Logged done s (entry v d) × (d ≤ g.depth + 1)
      pub out : Out s.noted ↔ (Out nothing ⊎ AddedBy done)

    -- Taking the first entry off the queue moves it to those done.
    moved :
        (done : List Entry) (s : Searching X) (f : Entry) (rest : List Entry)
        → s.queue ≡ f ∷ rest
        → (g : Entry) → Logged done s g ↔ Logged (f ∷ done) (record s { queue = rest }) g
    moved done s f rest e g = rw e (ground (arith, mem-cons g f rest, mem-cons g f done))

    popped-Visiting :
        (done : List Entry) (depth : ℕ) (s : Searching X) (f : Entry) (rest : List Entry)
        → s.queue ≡ f ∷ rest
        → Visiting edges_of far_end note_edge note_node max_depth start done depth s
        → Visiting edges_of far_end note_edge note_node max_depth start
            (f ∷ done)
            f.depth
            (record s { queue = rest })
    popped-Visiting done depth s f rest e i =
        let here_before = λ (g : Entry) (l : Logged (f ∷ done) (record s { queue = rest }) g).
          (moved done s f rest e g).1 l in
        let first = i.ahead f (rw e (Memᴰ.head refl)) in
        let o : Ordered (f ∷ rest) = subst Ordered e i.ordered in
        record {
          root = (moved done s f rest e (entry start 0)).0 i.root;
          seen_to =
              λ v m. let (d, l) = i.seen_to v m in (d, (moved done s f rest e (entry v d)).0 l);
          seen_from = λ g l. i.seen_from g (here_before g l);
          reached = λ g l. i.reached g (here_before g l);
          bounded = λ g l. i.bounded g (here_before g l);
          near = λ g l. omega (arith, i.near g (here_before g l));
          ahead = o.0;
          ordered = o.1;
        }

    out_more :
        (done : List Entry) (f : Entry) (x : X)
        → (Out x ↔ (
            (Out nothing ⊎ AddedBy done)
            ⊎ ((f.depth < max_depth) × ((e : E) × Memᴰ e (edges_of f.current_id) × P e))))
        → Out x ↔ (Out nothing ⊎ AddedBy (f ∷ done))
    out_more done f x (to, from) = (
      λ o. elim (to o) [
        | inl (inl first) ↦ inl first
        | inl (inr (g, m, lt, added)) ↦ inr (g, Memᴰ.tail m, lt, added)
        | inr (lt, added) ↦ inr (f, Memᴰ.head refl, lt, added)
      ],
      λ o. elim o [
        | inl first ↦ from (inl (inl first))
        | inr (g, m, lt, added) ↦ elim (Memᴰ.cases_cons m) [
          | inl e ↦ from (
              inr (
                subst (λ (h : Entry). h.depth < max_depth) e lt,
                subst (λ (h : Entry). (d : E) × Memᴰ d (edges_of h.current_id) × P d) e added,
              ))
          | inr old ↦ from (inl (inr (g, old, lt, added)))
        ]
      ],
    )

    expand_last :
        (s : Searching X) (f : Entry) (rest : List Entry)
        → s.queue ≡ f ∷ rest
        → max_depth ≤ f.depth
        → Between s
        → Between (record s { queue = rest })
    expand_last s f rest e deep b = record {
      done = f ∷ b.done;
      depth = f.depth;
      visiting = popped-Visiting b.done b.depth s f rest e b.visiting;
      closed = λ g m lt v edge. elim (Memᴰ.cases_cons m) [
        | inl same ↦ absurd (omega (arith, ap (λ (h : Entry). h.depth) same))
        | inr old ↦
            let (d, l, le) = b.closed g old lt v edge in
            (d, (moved b.done s f rest e (entry v d)).0 l, le)
      ];
      out =
          out_more b.done f s.noted
            (λ o. inl (b.out.0 o), ⊎_elim b.out.1 (λ t. absurd (omega (arith, t.0))));
    }

    module _ (s : Searching X) (f : Entry) (rest : List Entry) (e : s.queue ≡ f ∷ rest)
        (lt_max : f.depth < max_depth) (b : Between s) where
      abbrev popped : Searching X
      popped = record s { queue = rest }

      abbrev after : Searching X
      after =
          follow_all edges_of far_end note_edge note_node max_depth f.depth popped
            (edges_of f.current_id)

      after-Visiting :
          Visiting edges_of far_end note_edge note_node max_depth start (f ∷ b.done) f.depth after
      after-Visiting =
          follow_all-Visiting edges_of far_end note_edge note_node max_depth start (f ∷ b.done)
            f.current_id f.depth (b.visiting.reached f (inr (rw e (Memᴰ.head refl)))) lt_max popped
            (edges_of f.current_id) (λ d m. m)
            (popped-Visiting b.done b.depth s f rest e b.visiting)

      kept_after : (g : Entry) → Logged b.done s g → Logged (f ∷ b.done) after g
      kept_after g l = elim ((moved b.done s f rest e g).0 l) [
        | inl old ↦ inl old
        | inr m ↦ inr (
            queued-follow_all edges_of far_end note_edge note_node max_depth g f.depth popped
              (edges_of f.current_id) m)
      ]

      out_noted : Out after.noted ↔ (Out s.noted ⊎ ((d : E) × Memᴰ d (edges_of f.current_id) × P d))
      unfolding follow_edge visit
      out_noted =
          foldl_outputs (follow_edge edges_of far_end note_edge note_node max_depth f.depth)
            (λ u. Out u.noted) P
            (λ u d. elim (Bool-cases (contains (far_end d) u.seen)) [
              | inl old ↦ rw old (edge_noted d u.noted)
              | inr new ↦ rw new (
                  let node = node_noted (far_end d) (note_edge d u.noted) in
                  let edge = edge_noted d u.noted in
                  (λ o. edge.0 (node.0 o), λ o. node.1 (edge.1 o)))
            ])
            popped (edges_of f.current_id)

      expand_more : Between after
      expand_more = record {
        done = f ∷ b.done;
        depth = f.depth;
        visiting = after-Visiting;
        closed = λ g m lt v edge. elim (Memᴰ.cases_cons m) [
          | inl same ↦
              let (d, in_edges, ends) = subst (λ (h : Entry). Edge h.current_id v) same edge in
              let (k, l) = after-Visiting.seen_to v (
                (seen-follow_all edges_of far_end note_edge note_node max_depth v f.depth popped
                    (edges_of f.current_id)).1
                  (inr (d, in_edges, sym ends))) in
              (
                k,
                l,
                omega (arith, after-Visiting.near (entry v k) l, ap (λ (h : Entry). h.depth) same),
              )
          | inr old ↦ let (d, l, le) = b.closed g old lt v edge in (d, kept_after (entry v d) l, le)
        ];
        out = out_more b.done f after.noted (
          λ o. elim (out_noted.0 o) [ inl old ↦ inl (b.out.0 old) | inr d ↦ inr (lt_max, d) ],
          ⊎_elim (λ old. out_noted.1 (inl (b.out.1 old))) (λ t. out_noted.1 (inr t.1)),
        );
      }

    pub expand-Between :
        (s : Searching X) (f : Entry) (rest : List Entry)
        → s.queue ≡ f ∷ rest
        → Between s
        → Between (expand edges_of far_end note_edge note_node max_depth s f rest)
    unfolding expand
    expand-Between s f rest e b = elim (Bool-cases (leb max_depth f.depth)) [
      | inl deep ↦ rw deep (expand_last s f rest e (ground arith) b)
      | inr more ↦ rw more (expand_more s f rest e (ground arith) b)
    ]

    only_start :
        (g : Entry)
        → Logged [] (initial edges_of far_end note_edge note_node max_depth start nothing) g
        → g ≡ entry start 0
    only_start g l = elim l [ inl m ↦ absurd (Memᴰ.not-nil m) | inr m ↦ Memᴰ.eq_of_singleton m ]

    pub initial-Between :
        Between (initial edges_of far_end note_edge note_node max_depth start nothing)
    initial-Between = record {
      done = [];
      depth = 0;
      visiting = record {
        root = inr (Memᴰ.head refl);
        seen_to = λ v m. (0, rw (Memᴰ.eq_of_singleton m) (inr (Memᴰ.head refl)));
        seen_from = λ g l. rw (only_start g l) (Memᴰ.head refl);
        reached = λ g l. rw (only_start g l) here;
        bounded = λ g l. rw (only_start g l) (omega arith);
        near = λ g l. rw (only_start g l) (omega arith);
        ahead = λ g m. omega arith;
        ordered = (λ g m. absurd (Memᴰ.not-nil m), tt);
      };
      closed = λ g m. absurd (Memᴰ.not-nil m);
      out = (inl, ⊎_elim (λ o. o) (λ t. absurd (Memᴰ.not-nil t.1)));
    }
