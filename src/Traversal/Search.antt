-- ===== src/Traversal/Search.antt =====
-- src/p2_satellite/traversal.py: the frames that the walk visits are the simple paths of active edges
-- from the start, up to the depth bound.
use Prim.Native.Nat.{max}
use mathlib.Core.List.Memᴰ
use p2_ai_knowledge_graph_fo.Base.{
  ℕ, suc, ◌-◌, ◌≤◌, ◌<◌, ◌≡◌, refl, ap, ◌∙◌, subst, ◌⊎◌, inl, inr, ◌↔◌, List, [], ◌∷◌, ◌++◌, some,
  Text, length, length-snoc, Memᴰ, arith,
}
use p2_ai_knowledge_graph_fo.Worklist.{Derives, now, later, run_outputs}
use p2_ai_knowledge_graph_fo.Paths.{SimplePath, start, hop, Walk-of_SimplePath}
use p2_ai_knowledge_graph_fo.Traversal.{
  DiGraph, Frame, Walking, expand, fuel, initial, walk, note_target,
}
use p2_ai_knowledge_graph_fo.Traversal.Step.{ActiveEdge, Child, Emits, expand-Out, expand-stack}

module _ (g : DiGraph) (depth_bound : ℕ) (s : Text) (P : Text → List Text → Type 0) where
  -- A node `v` with `P v p`, found by a simple path `p` of at least one edge. The first edges are
  -- followed whatever the bound is.
  abbrev pub Found : Type 0
  Found =
      (v : Text) × (p : List Text) × SimplePath (ActiveEdge g) s p v
      × (2 ≤ length p)
      × (length p ≤ suc (max 1 depth_bound))
      × P v p

  abbrev Visits : Frame → Type 0
  Visits = Derives (Emits g depth_bound P) (Child g depth_bound)

  abbrev frame : Text → List Text → ℕ → Frame
  frame u p k = record { current_node = u; path = p; depth = k }

  found_of_visits :
      {f : Frame}
      → Visits f
      → SimplePath (ActiveEdge g) s f.path f.current_node
      → length f.path ≡ suc f.depth
      → f.depth < max 1 depth_bound
      → Found
  found_of_visits {f} (now (v, edge, fresh, at_v)) simple l b = (
    v,
    f.path ++ v ∷ [],
    hop simple edge fresh refl,
    omega (arith, length-snoc f.path v),
    omega (arith, length-snoc f.path v),
    at_v,
  )
  found_of_visits {f} (later (v, edge, fresh, lt, e) below) simple l b =
      found_of_visits below (rw e (hop simple edge fresh refl))
        (rw e (omega (arith, length-snoc f.path v))) (rw e (omega arith))

  Visits-start :
      {p : List Text} {u : Text}
      → SimplePath (ActiveEdge g) s p u
      → (k : ℕ) → length p ≡ suc k
      → k < max 1 depth_bound
      → Visits (frame u p k)
      → Visits (frame s (s ∷ []) 0)
  Visits-start start k l b d =
      let first : k ≡ 0 = omega arith in subst (λ j. Visits (frame s (s ∷ []) j)) first d
  Visits-start (hop {p = p} {q = q} {u = u} {v = v} simple edge fresh eq) k l b d =
      let (n, _, nodes) = Walk-of_SimplePath simple in
      let longer : length q ≡ suc (length p) = ap length eq ∙ length-snoc p v in
      Visits-start simple (k - 1) (omega arith) (omega arith)
        (later (v, edge, fresh, omega arith, ground (arith, eq)) d)

  Visits-of_found : Found → Visits (frame s (s ∷ []) 0)
  Visits-of_found (v, p, start, two, bound, at_v) = absurd (omega arith)
  Visits-of_found (v, q, hop {p = p} {v = w} simple edge fresh eq, two, bound, at_v) =
      let longer : length q ≡ suc (length p) = ap length eq ∙ length-snoc p w in
      Visits-start simple (length p - 1) (omega arith) (omega arith)
        (now (w, edge, fresh, subst (P w) eq at_v))

  module _ (Out : Walking → Type 0)
      (noted : (w : Walking) (v : Text) (p : List Text)
        → Out (note_target (g.node_data v) v p w) ↔ (Out w ⊎ P v p))
      (stackless : (w : Walking) (fs : List Frame) → Out (record w { stack = fs }) ↔ Out w) where
    -- An output that is empty at first holds in the end what was found.
    pub walk_output :
        (t : Walking) → walk g depth_bound s ≡ some t → ¬ Out (initial s) → Out t ↔ Found
    unfolding walk
    walk_output t h empty =
        let (to, from) =
          run_outputs (λ w. w.stack) (expand g depth_bound) Out (Emits g depth_bound P)
            (Child g depth_bound) (expand-Out g depth_bound Out P noted stackless)
            (expand-stack g depth_bound) (fuel g depth_bound) (initial s) t h in
        (
          λ o. elim (to o) [
            | inl old ↦ absurd (empty old)
            | inr (f, m, d) ↦
                let first : f ≡ frame s (s ∷ []) 0 = Memᴰ.eq_of_singleton m in
                found_of_visits (subst Visits first d) start refl (omega arith)
          ],
          λ found. from (inr (frame s (s ∷ []) 0, Memᴰ.head refl, Visits-of_found found)),
        )
