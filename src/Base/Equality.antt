-- ===== src/Base/Equality.antt =====
-- Equality as an interface, for `==` and `in` on generic keys.
use mathlib.Core.Path.{◌≡◌, refl}
use mathlib.Core.Logic.{◌↔◌, ◌⊎◌, inl, inr, ◌≢◌}
use mathlib.Core.Bool.{Bool, true, false, ◌&&◌}
use mathlib.Core.List.{List, [], ◌∷◌}
use native.Mathlib.Omega.{arith}
use Prim.Native.Nat.{ℕ}
use p2_ai_knowledge_graph_fo.Base.Tests.{nat_beq, nat_beq_iff, Bool-cases}

-- `same` is what `__eq__` answers.
pub record Eq {ℓ} (K : Type ℓ) : Type ℓ where
  pub same : (x y : K) → Bool
  pub same_iff : (x y : K) → (same x y ≡ true) ↔ (x ≡ y)

instance abbrev pub nat_eq : Eq ℕ
nat_eq = record { same = nat_beq; same_iff = nat_beq_iff }

-- `x == y` and `x in xs` take the instance of the type of `x`.
infix 50 ◌==◌
abbrev pub ◌==◌ {ℓ} : {K : Type ℓ} ⦃e : Eq K⦄ (x y : K) → Bool
◌==◌ ⦃e⦄ x y = e.same x y

module _ {ℓ} {A : Type ℓ} ⦃e : Eq A⦄ where
  pub eq_iff : (a b : A) → ((a == b) ≡ true) ↔ (a ≡ b)
  eq_iff a b = e.same_iff a b

  pub eq_refl : (a : A) → (a == a) ≡ true
  eq_refl a = (e.same_iff a a).1 refl

  pub eq-cases : (a b : A) → (a ≡ b) ⊎ ((a == b) ≡ false)
  eq-cases a b = elim (Bool-cases (a == b)) [ inl h ↦ inl ((e.same_iff a b).0 h) | inr h ↦ inr h ]

  pub ne_of_beq-false : (a b : A) → (a == b) ≡ false → a ≢ b
  ne_of_beq-false a b h p = cc (h, (e.same_iff a b).1 p)

module _ {ℓ} {A : Type ℓ} ⦃e : Eq A⦄ where
  unfoldable pub list_beq : List A → List A → Bool
  list_beq [] [] = true
  list_beq [] (_ ∷ _) = false
  list_beq (_ ∷ _) [] = false
  list_beq (a ∷ s) (b ∷ t) = (a == b) && list_beq s t

  pub list_beq_iff : (s t : List A) → (list_beq s t ≡ true) ↔ (s ≡ t)
  unfolding list_beq
  list_beq_iff [] [] = ground arith
  list_beq_iff [] (_ ∷ _) = ground arith
  list_beq_iff (_ ∷ _) [] = ground arith
  list_beq_iff (a ∷ s) (b ∷ t) = ground (arith, eq_iff a b, list_beq_iff s t)

  instance abbrev pub list_eq : Eq (List A)
  list_eq = record { same = list_beq; same_iff = list_beq_iff }

module _ {ℓ} {A B : Type ℓ} ⦃e : Eq A⦄ ⦃e' : Eq B⦄ where
  unfoldable pub pair_beq : A × B → A × B → Bool
  pair_beq (a, b) (c, d) = (a == c) && (b == d)

  pub pair_beq_iff : (p q : A × B) → (pair_beq p q ≡ true) ↔ (p ≡ q)
  unfolding pair_beq
  pair_beq_iff (a, b) (c, d) = ground (arith, eq_iff a c, eq_iff b d)

  instance abbrev pub pair_eq : Eq (A × B)
  pair_eq = record { same = pair_beq; same_iff = pair_beq_iff }
