-- ===== src/Reference/Search.antt =====
-- core-side-patch/reference_traversal_cte.py: the frames that the loop visits lie on walks from the
-- start, and every simple path within the bound is visited.
use mathlib.Core.List.Memᴰ
use mathlib.Core.List.{append_cancel_right}
use p2_ai_knowledge_graph_fo.Base.{
  ℕ, suc, ◌+◌, ◌≤◌, ◌<◌, ◌≡◌, ◌≢◌, refl, sym, ap, ◌∙◌, subst, ◌⊎◌, inl, inr, ◌↔◌, List, [], ◌∷◌,
  ◌++◌, some, length, length-snoc, mem-snoc, Memᴰ, arith, list_eq, nat_eq,
}
use p2_ai_knowledge_graph_fo.Worklist.{Derives, now, later, run_outputs}
use p2_ai_knowledge_graph_fo.Paths.{SimplePath, Walk, here, step, start, hop, SimplePath-of_Walk}
use p2_ai_knowledge_graph_fo.Reference.{
  NodeEntry, EdgeEntry, Frame, Deriving, initial, expand, fuel, walk, note_node, node_lookup,
}
use p2_ai_knowledge_graph_fo.Reference.Step.{CoreEdge, Child, Emits, expand-Out, expand-stack}

-- A simple path ends in its last node.
SimplePath-snoc :
    {E : ℕ → ℕ → Type 0} {s : ℕ} {p : List ℕ} {u : ℕ}
    → SimplePath E s p u
    → (a : List ℕ) × (p ≡ a ++ u ∷ [])
SimplePath-snoc start = ([], refl)
SimplePath-snoc (hop {p = p} simple e fresh eq) = (p, eq)

module _ (nodes : List NodeEntry) (edges : List EdgeEntry) (bound : ℕ) (s : ℕ)
    (P : ℕ → Type 0) where
  -- A node with `P`, found by a walk of 1 to `bound` edges.
  abbrev pub Found : Type 0
  Found = (v : ℕ) × (n : ℕ) × Walk (CoreEdge edges) s (suc n) v × (n < bound) × P v

  abbrev Visits : Frame → Type 0
  Visits = Derives (Emits nodes edges bound P) (Child nodes edges bound)

  abbrev frame : ℕ → List ℕ → ℕ → Frame
  frame u a k = record { current_id = u; path = a; depth = k }

  found_of_visits : {f : Frame} → Visits f → Walk (CoreEdge edges) s f.depth f.current_id → Found
  found_of_visits {f} (now (v, edge, fresh, lt, at_v)) w = (v, f.depth, step w edge, lt, at_v)
  found_of_visits {f} (later (v, edge, fresh, lt, e) below) w =
      let deeper : f.depth + 1 ≡ suc f.depth = omega arith in
      found_of_visits below (rw (e, deeper) (step w edge))

  Visits-start :
      {p : List ℕ} {u : ℕ}
      → SimplePath (CoreEdge edges) s p u
      → (a : List ℕ) → p ≡ a ++ u ∷ []
      → length a ≤ bound
      → Visits (frame u a (length a))
      → Visits (frame s [] 0)
  Visits-start start a e b d =
      let nothing : a ≡ [] = sym (append_cancel_right [] a (s ∷ []) e) in
      subst (λ x. Visits (frame s x (length x))) nothing d
  Visits-start (hop {p = p} {q = q} {u = u} {v = v} simple edge fresh eq) a e b d =
      let (a', e') = SimplePath-snoc simple in
      let same : a ≡ p = append_cancel_right a p (v ∷ []) (sym e ∙ eq) in
      let long : length a ≡ suc (length a') = ap length (same ∙ e') ∙ length-snoc a' u in
      Visits-start simple a' e' (omega arith) (
        later
          (
            v,
            edge,
            λ m. fresh (rw e' ((mem-snoc v u a').1 (inl m))),
            omega arith,
            ground (arith, same, e', long),
          )
          d)

  Visits-of_simple :
      {p : List ℕ} {v : ℕ}
      → SimplePath (CoreEdge edges) s p v
      → v ≢ s
      → length p ≤ suc bound
      → P v
      → Visits (frame s [] 0)
  Visits-of_simple start ne b at_v = absurd (ne refl)
  Visits-of_simple (hop {p = p} {q = q} {u = u} {v = v} simple edge fresh eq) ne b at_v =
      let (a, e) = SimplePath-snoc simple in
      let l : length p ≡ suc (length a) = ap length e ∙ length-snoc a u in
      let l' : length q ≡ suc (length p) = ap length eq ∙ length-snoc p v in
      Visits-start simple a e (omega arith)
        (now (v, edge, λ m. fresh (rw e ((mem-snoc v u a).1 (inl m))), omega arith, at_v))

  Visits-of_found : Found → ((v : ℕ) → P v → v ≢ s) → Visits (frame s [] 0)
  Visits-of_found (v, n, w, lt, at_v) ne =
      let (p, simple, l) = SimplePath-of_Walk w in
      Visits-of_simple simple (ne v at_v) (omega arith) at_v

  module _ (Out : Deriving → Type 0)
      (noted : (w : Deriving) (v : ℕ) → Out (note_node (node_lookup nodes v) w) ↔ (Out w ⊎ P v))
      (stackless : (w : Deriving) (fs : List Frame) → Out (record w { stack = fs }) ↔ Out w) where
    pub walk_output :
        (t : Deriving)
        → walk nodes edges bound s ≡ some t
        → ¬ Out (initial s)
        → ((v : ℕ) → P v → v ≢ s)
        → Out t ↔ Found
    unfolding walk
    walk_output t h empty ne =
        let (to, from) =
          run_outputs (λ w. w.stack) (expand nodes edges bound) Out (Emits nodes edges bound P)
            (Child nodes edges bound) (expand-Out nodes edges bound Out P noted stackless)
            (expand-stack nodes edges bound) (fuel nodes edges bound) (initial s) t h in
        (
          λ o. elim (to o) [
            | inl old ↦ absurd (empty old)
            | inr (f, m, d) ↦
                let first : f ≡ frame s [] 0 = Memᴰ.eq_of_singleton m in
                found_of_visits (subst Visits first d) here
          ],
          λ found. from (inr (frame s [] 0, Memᴰ.head refl, Visits-of_found found ne)),
        )
