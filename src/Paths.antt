-- ===== src/Paths.antt =====
-- Walks and simple paths over an arbitrary relation of edges.
use p2_ai_knowledge_graph_fo.Base.{
  ℕ, zero, suc, ◌≤◌, ◌≡◌, refl, ◌≢◌, inl, inr, List, [], ◌∷◌, ◌++◌, Memᴰ, mem-snoc, length,
  length-snoc, arith, subst, ap, Eq, contains, contains_iff, Bool-cases,
}
use mathlib.Core.List.Memᴰ

module _ {A : Type 0} (Edge : A → A → Type 0) (s : A) where
  -- `Walk n u`: some walk of `n` edges leads from `s` to `u`.
  pub data Walk : ℕ → A → Type 0 where
    here : Walk zero s
    step : {n : ℕ} {u v : A} → Walk n u → Edge u v → Walk (suc n) v

  -- `SimplePath p u`: the nodes `p` are a path along edges from `s` to `u` that visits none twice.
  pub data SimplePath : List A → A → Type 0 where
    start : SimplePath (s ∷ []) s
    hop :
        {p q : List A} {u v : A}
        → SimplePath p u
        → Edge u v
        → ¬ Memᴰ v p
        → q ≡ p ++ v ∷ []
        → SimplePath q v

module _ {A : Type 0} {Edge : A → A → Type 0} {s : A} where
  pub SimplePath-last : {p : List A} {u : A} → SimplePath Edge s p u → Memᴰ u p
  SimplePath-last start = Memᴰ.head refl
  SimplePath-last (hop {p = p} {v = v} h e n q) = rw q ((mem-snoc v v p).1 (inr refl))

  pub SimplePath-first : {p : List A} {u : A} → SimplePath Edge s p u → Memᴰ s p
  SimplePath-first start = Memᴰ.head refl
  SimplePath-first (hop {p = p} {v = v} h e n q) =
      rw q ((mem-snoc s v p).1 (inl (SimplePath-first h)))

  -- A simple path of `n + 1` nodes is a walk of `n` edges.
  pub Walk-of_SimplePath :
      {p : List A} {u : A} → SimplePath Edge s p u → (n : ℕ) × Walk Edge s n u × (length p ≡ suc n)
  Walk-of_SimplePath start = (0, here, refl)
  Walk-of_SimplePath (hop {p = p} {v = v} h e n q) =
      let (k, w, l) = Walk-of_SimplePath h in
      (suc k, step w e, omega (arith, ap length q, length-snoc p v))

  -- A simple path can be cut at any node that it visits.
  pub cut :
      (v : A) {p : List A} {u : A}
      → SimplePath Edge s p u
      → Memᴰ v p
      → (q : List A) × SimplePath Edge s q v × (length q ≤ length p)
  cut v start m = (s ∷ [], rw (Memᴰ.eq_of_singleton m) start, omega arith)
  cut v (hop {p = p} {q = q} {v = w} h e n eq) m = elim ((mem-snoc v w p).0 (subst (Memᴰ v) eq m)) [
    | inl earlier ↦
        let (r, cut_here, l) = cut v h earlier in
        (r, cut_here, omega (arith, ap length eq, length-snoc p w))
    | inr last ↦ (q, rw last (hop h e n eq), omega arith)
  ]

  -- A walk of `n` edges can be shortened to a simple path of at most `n + 1` nodes.
  pub SimplePath-of_Walk :
      ⦃d : Eq A⦄ {n : ℕ} {u : A}
      → Walk Edge s n u
      → (p : List A) × SimplePath Edge s p u × (length p ≤ suc n)
  SimplePath-of_Walk here = (s ∷ [], start, omega arith)
  SimplePath-of_Walk (step {n = n} {u = u} {v = v} w e) =
      let (p, simple, l) = SimplePath-of_Walk w in
      elim (Bool-cases (contains v p)) [
        | inl seen ↦
            let (q, shorter, l') = cut v simple ((contains_iff v p).0 seen) in
            (q, shorter, omega arith)
        | inr fresh ↦ (
          p ++ v ∷ [],
          hop simple e (λ m. cc ((contains_iff v p).1 m)) refl,
          omega (arith, length-snoc p v),
        )
      ]

  -- The nodes of a simple path after the first are not the start.
  pub hop-ne-start : {p : List A} {u v : A} → SimplePath Edge s p u → ¬ Memᴰ v p → v ≢ s
  hop-ne-start h n e = n (rw e (SimplePath-first h))

  -- A walk to another node has an edge.
  pub Walk-pos : {n : ℕ} {u : A} → Walk Edge s n u → u ≢ s → (m : ℕ) × (n ≡ suc m)
  Walk-pos here ne = absurd (ne refl)
  Walk-pos (step {n = n} w e) ne = (n, refl)

-- A walk in front of which an edge is put.
step_first :
    {A : Type 0} {Edge : A → A → Type 0} {s u v : A} {n : ℕ}
    → Edge s u
    → Walk Edge u n v
    → Walk Edge s (suc n) v
step_first e here = step here e
step_first e (step w last) = step (step_first e w) last

-- A walk turned round runs along the edges turned round.
pub Walk-reverse :
    {A : Type 0} {Edge Back : A → A → Type 0}
    → ((u v : A) → Edge u v → Back v u)
    → {s v : A} {n : ℕ} → Walk Edge s n v
    → Walk Back v n s
Walk-reverse turn here = here
Walk-reverse turn (step {u = u} {v = v} w e) = step_first (turn u v e) (Walk-reverse turn w)

pub Walk-map :
    {A : Type 0} {Edge Edge' : A → A → Type 0}
    → ((u v : A) → Edge u v → Edge' u v)
    → {s v : A} {n : ℕ} → Walk Edge s n v
    → Walk Edge' s n v
Walk-map f here = here
Walk-map f (step {u = u} {v = v} w e) = step (Walk-map f w) (f u v e)
