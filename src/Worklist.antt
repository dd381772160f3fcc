-- ===== src/Worklist.antt =====
-- The `while stack:` loop of both traversals: a frame is taken off the list of pending frames, and
-- the body may add others. `run` takes fuel; `run_ends` says how much is enough.
use p2_ai_knowledge_graph_fo.Base.{
  ℕ, zero, suc, ◌≤◌, ◌≡◌, refl, ◌⊎◌, inl, inr, ◌↔◌, ⊎_elim, foldl, Option, none, some, List, [],
  ◌∷◌, Memᴰ, arith, subst,
}
use mathlib.Core.List.Memᴰ

pub List-cases {ℓ} :
    {A : Type ℓ} (xs : List A) → (xs ≡ []) ⊎ ((x : A) × (rest : List A) × (xs ≡ x ∷ rest))
List-cases [] = inl refl
List-cases (x ∷ xs) = inr (x, xs, refl)

module _ {S F : Type 0} (pending : S → List F) (expand : S → F → List F → S) where
  unfoldable pub run : ℕ → S → Option S
  run zero s = elim (pending s) [ [] ↦ some s | _ ∷ _ ↦ none ]
  run (suc fuel) s = elim (pending s) [ [] ↦ some s | f ∷ rest ↦ run fuel (expand s f rest) ]

  -- An invariant that one round keeps holds at the end.
  pub run_invariant :
      (P : S → Type 0)
      → ((s : S) (f : F) (rest : List F) → pending s ≡ f ∷ rest → P s → P (expand s f rest))
      → (fuel : ℕ) (s t : S) → P s
      → run fuel s ≡ some t
      → P t × (pending t ≡ [])
  unfolding run
  run_invariant P keep zero s t p h = ground arith
  run_invariant P keep (suc fuel) s t p h = elim (List-cases (pending s)) [
    | inl empty ↦ ground arith
    | inr (f, rest, e) ↦
        run_invariant P keep fuel (expand s f rest) t (keep s f rest e p) (rw (e, run) at h)
  ]

  -- With a measure that falls in each round and is at most the fuel, the loop ends.
  pub run_ends :
      (measure : S → ℕ)
      → ((s : S) (f : F) (rest : List F)
          → pending s ≡ f ∷ rest
          → suc (measure (expand s f rest)) ≤ measure s)
      → (fuel : ℕ) (s : S) → measure s ≤ fuel
      → (t : S) × (run fuel s ≡ some t)
  unfolding run
  run_ends measure falls zero s h = elim (List-cases (pending s)) [
    | inl empty ↦ (s, rw (empty, run))
    | inr (f, rest, e) ↦ absurd (omega (arith, falls s f rest e))
  ]
  run_ends measure falls (suc fuel) s h = elim (List-cases (pending s)) [
    | inl empty ↦ (s, rw (empty, run))
    | inr (f, rest, e) ↦
        let (t, ends) =
          run_ends measure falls fuel (expand s f rest) (omega (arith, falls s f rest e)) in
        (t, rw (e, run) ends)
  ]

-- What a frame contributes: something of its own, or something of a frame that it pushes.
pub data Derives {F : Type 0} (Emits : F → Type 0) (Child : F → F → Type 0) : F → Type 0 where
  now : {f : F} → Emits f → Derives Emits Child f
  later : {f g : F} → Child f g → Derives Emits Child g → Derives Emits Child f

module _ {F : Type 0} (Emits : F → Type 0) (Child : F → F → Type 0) where
  pub Derives-cases :
      {f : F} → Derives Emits Child f → Emits f ⊎ ((g : F) × Child f g × Derives Emits Child g)
  Derives-cases (now e) = inl e
  Derives-cases (later {g = g} c d) = inr (g, c, d)

module _ {S F : Type 0} (pending : S → List F) (expand : S → F → List F → S) (Out : S → Type 0)
    (Emits : F → Type 0) (Child : F → F → Type 0)
    (out_step : (s : S) (f : F) (rest : List F) → Out (expand s f rest) ↔ (Out s ⊎ Emits f))
    (pending_step : (s : S) (f : F) (rest : List F) (g : F)
      → Memᴰ g (pending (expand s f rest)) ↔ (Memᴰ g rest ⊎ Child f g)) where
  abbrev pub Pending : S → Type 0
  Pending s = (f : F) × Memᴰ f (pending s) × Derives Emits Child f

  abbrev pub Total : S → Type 0
  Total s = Out s ⊎ Pending s

  after_round :
      (s : S) (f : F) (rest : List F) → pending s ≡ f ∷ rest → Total (expand s f rest) → Total s
  after_round s f rest e (inl o) = elim ((out_step s f rest).0 o) [
    | inl old ↦ inl old
    | inr emitted ↦ inr (f, rw e (Memᴰ.head refl), now emitted)
  ]
  after_round s f rest e (inr (g, m, d)) = elim ((pending_step s f rest g).0 m) [
    | inl old ↦ inr (g, rw e (Memᴰ.tail old), d)
    | inr child ↦ inr (f, rw e (Memᴰ.head refl), later child d)
  ]

  derived_next : (s : S) (f : F) (rest : List F) → Derives Emits Child f → Total (expand s f rest)
  derived_next s f rest d = elim (Derives-cases Emits Child d) [
    | inl emitted ↦ inl ((out_step s f rest).1 (inr emitted))
    | inr (g, child, below) ↦ inr (g, (pending_step s f rest g).1 (inr child), below)
  ]

  before_round :
      (s : S) (f : F) (rest : List F) → pending s ≡ f ∷ rest → Total s → Total (expand s f rest)
  before_round s f rest e (inl o) = inl ((out_step s f rest).1 (inl o))
  before_round s f rest e (inr (g, m, d)) = elim (Memᴰ.cases_cons (subst (Memᴰ g) e m)) [
    | inl same ↦ derived_next s f rest (subst (Derives Emits Child) same d)
    | inr old ↦ inr (g, (pending_step s f rest g).1 (inl old), d)
  ]

  -- What the output holds in the end is what it held before, and what a pending frame derives.
  pub run_outputs : (fuel : ℕ) (s t : S) → run pending expand fuel s ≡ some t → Out t ↔ Total s
  run_outputs fuel s t h =
      let (same, empty) =
        run_invariant pending expand (λ u. Total u ↔ Total s)
          (λ u f rest e both. (
            λ now_u. both.0 (after_round u f rest e now_u),
            λ at_s. before_round u f rest e (both.1 at_s),
          ))
          fuel s t (λ o. o, λ o. o) h in
      (
        λ o. same.0 (inl o),
        λ at_s. elim (same.1 at_s) [
          | inl o ↦ o
          | inr (g, m, d) ↦ absurd (Memᴰ.not-nil (subst (Memᴰ g) empty m))
        ],
      )

-- A `for` loop whose body adds, for each element, what the element contributes.
pub foldl_outputs {ℓ} :
    {S : Type 0} {E : Type 0} (body : S → E → S) (Out : S → Type ℓ) (Adds : E → Type ℓ)
    → ((s : S) (e : E) → Out (body s e) ↔ (Out s ⊎ Adds e))
    → (s : S) (es : List E) → Out (foldl body s es) ↔ (Out s ⊎ ((e : E) × Memᴰ e es × Adds e))
foldl_outputs body Out Adds one s [] = (inl, ⊎_elim (λ o. o) (λ t. absurd (Memᴰ.not-nil t.1)))
foldl_outputs body Out Adds one s (x ∷ es) =
    let later_ones = foldl_outputs body Out Adds one (body s x) es in
    (
      λ o. elim (later_ones.0 o) [
        | inl now_o ↦ elim ((one s x).0 now_o) [
          | inl old ↦ inl old
          | inr added ↦ inr (x, Memᴰ.head refl, added)
        ]
        | inr (e, m, added) ↦ inr (e, Memᴰ.tail m, added)
      ],
      ⊎_elim (λ o. later_ones.1 (inl ((one s x).1 (inl o))))
          (λ (e, m, added). elim (Memᴰ.cases_cons m) [
            | inl same ↦ later_ones.1 (inl ((one s x).1 (inr (subst Adds same added))))
            | inr below ↦ later_ones.1 (inr (e, below, added))
          ]),
    )

pub foldl_invariant :
    {S E : Type 0} (body : S → E → S) (P : S → Type 0)
    → ((s : S) (e : E) → P s → P (body s e))
    → (s : S) (es : List E) → P s
    → P (foldl body s es)
foldl_invariant body P keep s [] h = h
foldl_invariant body P keep s (e ∷ es) h = foldl_invariant body P keep (body s e) es (keep s e h)
