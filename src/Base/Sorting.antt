-- ===== src/Base/Sorting.antt =====
-- `sorted` does not depend on the order that it is given.
use mathlib.Core.Path.{◌≡◌, refl, ◌∙◌}
use mathlib.Core.Logic.{◌⊎◌, inl, inr}
use mathlib.Core.Bool.{Bool, true, false}
use mathlib.Core.List.{List, [], ◌∷◌, Memᴰ}
use mathlib.Core.List.Memᴰ
use mathlib.Core.List.{Permᴰ}
use native.Mathlib.Omega.{arith}
use p2_ai_knowledge_graph_fo.Base.Tests.{if◌then◌else◌}
use p2_ai_knowledge_graph_fo.Base.Equality.{◌==◌, eq_iff, list_eq, nat_eq}
use p2_ai_knowledge_graph_fo.Base.Strings.{Text, text_le, insert_sorted, sorted}

-- An order that `sorted` may use, on the elements that `P` holds of.
pub record IsOrder {A : Type 0} (P : A → Type 0) (le : A → A → Bool) : Type 0 where
  pub total : (a b : A) → (le a b ≡ true) ⊎ (le b a ≡ true)
  pub antisym : (a b : A) → P a → P b → le a b ≡ true → le b a ≡ true → a ≡ b
  pub trans : (a b c : A) → le a b ≡ true → le b c ≡ true → le a c ≡ true

text_le-total : (s t : Text) → (text_le s t ≡ true) ⊎ (text_le t s ≡ true)
unfolding text_le
text_le-total [] t = inl refl
text_le-total (a ∷ s) [] = inr refl
text_le-total (a ∷ s) (b ∷ t) = ground (arith, text_le-total s t)

text_le-antisym : (s t : Text) → text_le s t ≡ true → text_le t s ≡ true → s ≡ t
unfolding text_le
text_le-antisym [] [] h h' = refl
text_le-antisym [] (b ∷ t) h h' = absurd cc
text_le-antisym (a ∷ s) [] h h' = absurd cc
text_le-antisym (a ∷ s) (b ∷ t) h h' = ground (arith, text_le-antisym s t)

text_le_trans : (r s t : Text) → text_le r s ≡ true → text_le s t ≡ true → text_le r t ≡ true
unfolding text_le
text_le_trans [] s t h h' = refl
text_le_trans (a ∷ r) [] t h h' = absurd cc
text_le_trans (a ∷ r) (b ∷ s) [] h h' = absurd cc
text_le_trans (a ∷ r) (b ∷ s) (c ∷ t) h h' = ground (arith, text_le_trans r s t)

-- Python's order on tuples of strings.
unfoldable pub keys_le : List Text → List Text → Bool
keys_le [] _ = true
keys_le (_ ∷ _) [] = false
keys_le (a ∷ s) (b ∷ t) = let rest = keys_le s t in if a == b then rest else text_le a b

pub keys_le-total : (s t : List Text) → (keys_le s t ≡ true) ⊎ (keys_le t s ≡ true)
unfolding keys_le
keys_le-total [] t = inl refl
keys_le-total (a ∷ s) [] = inr refl
keys_le-total (a ∷ s) (b ∷ t) =
    ground (arith, keys_le-total s t, text_le-total a b, eq_iff a b, eq_iff b a)

pub keys_le-antisym : (s t : List Text) → keys_le s t ≡ true → keys_le t s ≡ true → s ≡ t
unfolding keys_le
keys_le-antisym [] [] h h' = refl
keys_le-antisym [] (b ∷ t) h h' = absurd cc
keys_le-antisym (a ∷ s) [] h h' = absurd cc
keys_le-antisym (a ∷ s) (b ∷ t) h h' =
    ground (arith, keys_le-antisym s t, text_le-antisym a b, eq_iff a b, eq_iff b a)

pub keys_le_trans :
    (r s t : List Text) → keys_le r s ≡ true → keys_le s t ≡ true → keys_le r t ≡ true
unfolding keys_le
keys_le_trans [] s t h h' = refl
keys_le_trans (a ∷ r) [] t h h' = absurd cc
keys_le_trans (a ∷ r) (b ∷ s) [] h h' = absurd cc
keys_le_trans (a ∷ r) (b ∷ s) (c ∷ t) h h' = ground (
  arith,
  keys_le_trans r s t,
  text_le_trans a b c,
  text_le-antisym a b,
  eq_iff a b,
  eq_iff b c,
  eq_iff a c,
)

mem-Perm : {A : Type 0} (x : A) (xs ys : List A) → Permᴰ xs ys → Memᴰ x xs → Memᴰ x ys
mem-Perm x _ _ Permᴰ.nil m = m
mem-Perm x _ _ (Permᴰ.cons {l₁ = s} {l₂ = t} e p) m = elim (Memᴰ.cases_cons m) [
  | inl h ↦ Memᴰ.head (h ∙ e)
  | inr later ↦ Memᴰ.tail (mem-Perm x s t p later)
]
mem-Perm x _ _ (Permᴰ.swap e e') m = elim (Memᴰ.cases_cons m) [
  | inl h ↦ Memᴰ.tail (Memᴰ.head (h ∙ e))
  | inr later ↦ elim (Memᴰ.cases_cons later) [
    | inl h ↦ Memᴰ.head (h ∙ e')
    | inr rest ↦ Memᴰ.tail (Memᴰ.tail rest)
  ]
]
mem-Perm x _ _ (Permᴰ.trans {l₁ = s} {l₂ = t} {l₃ = u} p q) m =
    mem-Perm x t u q (mem-Perm x s t p m)

module _ {A : Type 0} (P : A → Type 0) (le : A → A → Bool) (order : IsOrder P le) where
  insert_sorted-swap :
      (a b : A)
      → P a
      → P b
      → (xs : List A)
      → insert_sorted le a (insert_sorted le b xs) ≡ insert_sorted le b (insert_sorted le a xs)
  unfolding insert_sorted
  insert_sorted-swap a b pa pb [] = ground (arith, order.total a b, order.antisym a b pa pb)
  insert_sorted-swap a b pa pb (x ∷ xs) = ground (
    arith,
    order.total a b,
    order.antisym a b pa pb,
    order.trans a b x,
    order.trans b a x,
    insert_sorted-swap a b pa pb xs,
  )

  abbrev All : List A → Type 0
  All xs = (x : A) → Memᴰ x xs → P x

  All-Perm : (xs ys : List A) → Permᴰ xs ys → All ys → All xs
  All-Perm xs ys p all x m = all x (mem-Perm x xs ys p m)

  -- Two lists that differ in their order are sorted into the same list.
  pub sorted-Perm : (xs ys : List A) → Permᴰ xs ys → All ys → sorted le xs ≡ sorted le ys
  unfolding sorted
  sorted-Perm _ _ Permᴰ.nil all = refl
  sorted-Perm _ _ (Permᴰ.cons {a = a} {b = b} {l₁ = s} {l₂ = t} e p) all =
      rw (e, sorted-Perm s t p (λ x m. all x (Memᴰ.tail m))) refl
  sorted-Perm _ _ (Permᴰ.swap {a = a} {b = b} {l = l} e e') all =
      rw (← e, ← e')
        (insert_sorted-swap a b (all a (Memᴰ.tail (Memᴰ.head e))) (all b (Memᴰ.head e'))
          (sorted le l))
  sorted-Perm _ _ (Permᴰ.trans {l₁ = s} {l₂ = t} {l₃ = u} p q) all =
      sorted-Perm s t p (All-Perm t u q all) ∙ sorted-Perm t u q all
