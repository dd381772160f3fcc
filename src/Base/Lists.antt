-- ===== src/Base/Lists.antt =====
-- Lists under native numbers, and membership.
use Prim.Native.Nat.{ℕ, zero, suc, ◌+◌, ◌≤◌}
use mathlib.Core.Path.{◌≡◌, refl, sym, ap, ◌∙◌}
use mathlib.Core.Logic.{◌⊎◌, inl, inr, ◌↔◌, ⊎_elim}
use mathlib.Core.Bool.{Bool, true, false, ◌&&◌, ◌||◌}
use mathlib.Core.Option.{Option, none, some}
use mathlib.Core.List.{List, [], ◌∷◌, ◌++◌, map, Memᴰ}
use mathlib.Core.List.Memᴰ
use native.Mathlib.Omega.{arith}
use p2_ai_knowledge_graph_fo.Base.Tests.{Bool-cases, if◌then◌else◌}

module _ {ℓ} {A : Type ℓ} where
  abbrev pub length : List A → ℕ
  length [] = 0
  length (_ ∷ xs) = suc (length xs)

  -- `l[:n]`
  abbrev pub take : ℕ → List A → List A
  take zero xs = []
  take (suc n) [] = []
  take (suc n) (x ∷ xs) = x ∷ take n xs

  -- `l[n:]`
  abbrev pub drop : ℕ → List A → List A
  drop zero xs = xs
  drop (suc n) [] = []
  drop (suc n) (x ∷ xs) = drop n xs

  -- The library's `any` and `all` do not unfold.
  abbrev pub any : (A → Bool) → List A → Bool
  any p [] = false
  any p (x ∷ xs) = p x || any p xs

  abbrev pub all : (A → Bool) → List A → Bool
  all p [] = true
  all p (x ∷ xs) = p x && all p xs

  -- `[x for x in xs if p(x)]`
  abbrev pub keep_if : (A → Bool) → List A → List A
  keep_if p [] = []
  keep_if p (x ∷ xs) = if p x then x ∷ keep_if p xs else keep_if p xs

  -- the first element that passes, as `next(...)` or `.first()` finds it
  abbrev pub find_first : (A → Bool) → List A → Option A
  find_first p [] = none
  find_first p (x ∷ xs) = if p x then some x else find_first p xs

module _ {ℓ} {A : Type ℓ} where
  pub length-append : (xs ys : List A) → length (xs ++ ys) ≡ length xs + length ys
  length-append [] ys = omega arith
  length-append (x ∷ xs) ys = omega (arith, length-append xs ys)

  pub length-snoc : (xs : List A) (y : A) → length (xs ++ y ∷ []) ≡ suc (length xs)
  length-snoc [] y = refl
  length-snoc (x ∷ xs) y = ap suc (length-snoc xs y)

  pub length-keep_if-le : (p : A → Bool) (xs : List A) → length (keep_if p xs) ≤ length xs
  length-keep_if-le p [] = omega arith
  length-keep_if-le p (x ∷ xs) = ground (arith, length-keep_if-le p xs)

  pub mem-cons : (a x : A) (xs : List A) → Memᴰ a (x ∷ xs) ↔ ((a ≡ x) ⊎ Memᴰ a xs)
  mem-cons a x xs = (Memᴰ.cases_cons, ⊎_elim Memᴰ.head Memᴰ.tail)

  pub mem-append : (a : A) (xs ys : List A) → Memᴰ a (xs ++ ys) ↔ (Memᴰ a xs ⊎ Memᴰ a ys)
  mem-append a xs ys = (Memᴰ.append_cases xs, ⊎_elim (Memᴰ.append_left ys) (Memᴰ.append_right xs))

  pub mem-snoc : (a x : A) (xs : List A) → Memᴰ a (xs ++ x ∷ []) ↔ (Memᴰ a xs ⊎ (a ≡ x))
  mem-snoc a x xs = (
    λ m. ⊎_elim inl (λ last. inr (Memᴰ.eq_of_singleton last)) (Memᴰ.append_cases xs m),
    ⊎_elim (Memᴰ.append_left _) (λ e. Memᴰ.append_right xs (Memᴰ.head e)),
  )

  pub mem-keep_if :
      (p : A → Bool) (a : A) (xs : List A) → Memᴰ a (keep_if p xs) ↔ (Memᴰ a xs × (p a ≡ true))
  mem-keep_if p a [] = (λ m. absurd (Memᴰ.not-nil m), λ m. absurd (Memᴰ.not-nil m.0))
  mem-keep_if p a (x ∷ xs) = elim (Bool-cases (p x)) [
    | inl e ↦ rw e (
      λ m. elim (Memᴰ.cases_cons m) [
        | inl q ↦ (Memᴰ.head q, ap p q ∙ e)
        | inr r ↦ let t = (mem-keep_if p a xs).0 r in (Memᴰ.tail t.0, t.1)
      ],
      λ m. elim (Memᴰ.cases_cons m.0) [
        | inl q ↦ Memᴰ.head q
        | inr r ↦ Memᴰ.tail ((mem-keep_if p a xs).1 (r, m.1))
      ],
    )
    | inr e ↦ rw e (
      λ m. let t = (mem-keep_if p a xs).0 m in (Memᴰ.tail t.0, t.1),
      λ m. elim (Memᴰ.cases_cons m.0) [
        | inl q ↦ cc (ap p q)
        | inr r ↦ (mem-keep_if p a xs).1 (r, m.1)
      ],
    )
  ]

  pub any-eq-true :
      (p : A → Bool) (xs : List A) → (any p xs ≡ true) ↔ ((a : A) × Memᴰ a xs × (p a ≡ true))
  any-eq-true p [] = (λ h. cc, λ m. absurd (Memᴰ.not-nil m.1))
  any-eq-true p (x ∷ xs) = elim (Bool-cases (p x)) [
    | inl e ↦ rw e (λ h. (x, Memᴰ.head refl, e), λ m. refl)
    | inr e ↦ rw e (
      λ h. let t = (any-eq-true p xs).0 h in (t.0, Memᴰ.tail t.1, t.2),
      λ m. elim (Memᴰ.cases_cons m.1) [
        | inl q ↦ cc (ap p q)
        | inr r ↦ (any-eq-true p xs).1 (m.0, r, m.2)
      ],
    )
  ]

  pub all-eq-true :
      (p : A → Bool) (xs : List A) → (all p xs ≡ true) ↔ ((a : A) → Memᴰ a xs → p a ≡ true)
  all-eq-true p [] = (λ h a m. absurd (Memᴰ.not-nil m), λ h. refl)
  all-eq-true p (x ∷ xs) = elim (Bool-cases (p x)) [
    | inl e ↦ rw e (
      λ h a m. elim (Memᴰ.cases_cons m) [ inl q ↦ ap p q ∙ e | inr r ↦ (all-eq-true p xs).0 h a r ],
      λ h. (all-eq-true p xs).1 (λ a m. h a (Memᴰ.tail m)),
    )
    | inr e ↦ rw e (λ h. cc, λ h. cc (h x (Memᴰ.head refl)))
  ]

pub length-map : {A B : Type 0} (f : A → B) (xs : List A) → length (map f xs) ≡ length xs
length-map f [] = refl
length-map f (x ∷ xs) = ap suc (length-map f xs)

pub mem-map :
    {A B : Type 0} (f : A → B) (b : B) (xs : List A)
    → Memᴰ b (map f xs) ↔ ((a : A) × Memᴰ a xs × (b ≡ f a))
mem-map f b xs = (
  λ m. let (a, in_xs, eq) = Memᴰ.of_map f xs m in (a, in_xs, sym eq),
  λ (a, in_xs, eq). Memᴰ.cast eq (Memᴰ.map f in_xs),
)
