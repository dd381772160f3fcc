-- ===== src/Base/Sets.antt =====
-- Python's `in`, and sets as lists that hold each element once, in the order of insertion.
use mathlib.Core.Path.{◌≡◌, refl, sym}
use mathlib.Core.Logic.{◌↔◌, ◌⊎◌, inl, inr, ⊎_elim}
use mathlib.Core.Bool.{Bool, true, false, ◌&&◌, ◌||◌}
use mathlib.Core.List.{List, [], ◌∷◌, ◌++◌, Memᴰ}
use mathlib.Core.List.Memᴰ
use native.Mathlib.Omega.{arith}
use p2_ai_knowledge_graph_fo.Base.Tests.{if◌then◌else◌, Bool-cases}
use p2_ai_knowledge_graph_fo.Base.Equality.{Eq, ◌==◌, eq_iff, eq-cases}
use p2_ai_knowledge_graph_fo.Base.Lists.{mem-cons, mem-snoc, all, all-eq-true}

module _ {ℓ} {A : Type ℓ} ⦃e : Eq A⦄ where
  -- `a in xs`
  unfoldable pub contains : A → List A → Bool
  contains a [] = false
  contains a (x ∷ xs) = (a == x) || contains a xs

  -- `xs.add(a)`
  unfoldable pub add : A → List A → List A
  add a xs = if contains a xs then xs else xs ++ a ∷ []

  -- `set(xs)`
  unfoldable pub to_set : List A → List A
  to_set [] = []
  to_set (x ∷ xs) = add x (to_set xs)

  -- `a == b` on sets
  unfoldable pub set_eq : List A → List A → Bool
  set_eq xs ys = all (λ x. contains x ys) xs && all (λ y. contains y xs) ys

  pub contains_iff : (a : A) (xs : List A) → (contains a xs ≡ true) ↔ Memᴰ a xs
  unfolding contains
  contains_iff a [] = (λ h. cc, λ m. absurd (Memᴰ.not-nil m))
  contains_iff a (x ∷ xs) = elim (eq-cases a x) [
    | inl p ↦ rw ((eq_iff a x).1 p) (λ h. Memᴰ.head p, λ m. refl)
    | inr n ↦ rw n (
      λ h. Memᴰ.tail ((contains_iff a xs).0 h),
      λ m. elim (Memᴰ.cases_cons m) [
        | inl p ↦ cc ((eq_iff a x).1 p)
        | inr r ↦ (contains_iff a xs).1 r
      ],
    )
  ]

  pub mem-add : (a b : A) (xs : List A) → Memᴰ a (add b xs) ↔ (Memᴰ a xs ⊎ (a ≡ b))
  unfolding add
  mem-add a b xs = elim (Bool-cases (contains b xs)) [
    | inl h ↦ rw h (inl, ⊎_elim (λ m. m) (λ p. Memᴰ.cast p ((contains_iff b xs).0 h)))
    | inr h ↦ rw h (mem-snoc a b xs)
  ]

  pub mem-to_set : (a : A) (xs : List A) → Memᴰ a (to_set xs) ↔ Memᴰ a xs
  unfolding to_set
  mem-to_set a [] = (λ m. m, λ m. m)
  mem-to_set a (x ∷ xs) = ground (arith, mem-add a x (to_set xs), mem-to_set a xs, mem-cons a x xs)

  abbrev pub SameMembers : List A → List A → Type ℓ
  SameMembers xs ys = (a : A) → Memᴰ a xs ↔ Memᴰ a ys

  pub set_eq_iff : (xs ys : List A) → (set_eq xs ys ≡ true) ↔ SameMembers xs ys
  unfolding set_eq
  set_eq_iff xs ys =
      let sub = λ (us vs : List A). all-eq-true (λ u. contains u vs) us in
      (
        λ h a. (
          λ m. (contains_iff a ys).0 ((sub xs ys).0 (ground arith) a m),
          λ m. (contains_iff a xs).0 ((sub ys xs).0 (ground arith) a m),
        ),
        λ h. ground (
          arith,
          (sub xs ys).1 (λ a m. (contains_iff a ys).1 ((h a).0 m)),
          (sub ys xs).1 (λ a m. (contains_iff a xs).1 ((h a).1 m)),
        ),
      )

module _ {ℓ} {A : Type ℓ} where
  -- No element twice.
  abbrev pub Distinct : List A → Type ℓ
  Distinct [] = Unit
  Distinct (x ∷ xs) = (¬ Memᴰ x xs) × Distinct xs

  pub Distinct-snoc : (xs : List A) (a : A) → Distinct xs → ¬ Memᴰ a xs → Distinct (xs ++ a ∷ [])
  Distinct-snoc [] a d n = (λ m. Memᴰ.not-nil m, tt)
  Distinct-snoc (x ∷ xs) a d n = (
    λ m. elim ((mem-snoc x a xs).0 m) [ inl old ↦ d.0 old | inr e ↦ n (Memᴰ.head (sym e)) ],
    Distinct-snoc xs a d.1 (λ m. n (Memᴰ.tail m)),
  )

module _ {ℓ} {A : Type ℓ} ⦃e : Eq A⦄ where
  pub Distinct-add : (a : A) (xs : List A) → Distinct xs → Distinct (add a xs)
  unfolding add
  Distinct-add a xs d = elim (Bool-cases (contains a xs)) [
    | inl h ↦ rw h d
    | inr h ↦ rw h (Distinct-snoc xs a d (λ m. cc (h, (contains_iff a xs).1 m)))
  ]
