-- ===== src/Base/Groups.antt =====
-- What a dict holds that a comprehension, or appending under `setdefault`, has built.
use mathlib.Core.Path.{◌≡◌, refl, sym, ap, ◌∙◌}
use mathlib.Core.Logic.{◌⊎◌, inl, inr, ◌↔◌}
use mathlib.Core.Option.{some, some-injective}
use mathlib.Core.List.{List, [], ◌∷◌, ◌++◌, map, foldl, Memᴰ}
use mathlib.Core.List.Memᴰ
use mathlib.Core.List.{append-nil, append_assoc}
use p2_ai_knowledge_graph_fo.Base.Tests.{if◌then◌else◌, Bool-cases}
use p2_ai_knowledge_graph_fo.Base.Equality.{Eq, ◌==◌, eq_refl, eq-cases}
use p2_ai_knowledge_graph_fo.Base.Lists.{keep_if}
use p2_ai_knowledge_graph_fo.Base.Sets.{Distinct}
use p2_ai_knowledge_graph_fo.Base.Dicts.{
  Dict, lookup, put, lookup-put, lookup-put_self, dict_of, or_empty, group_of, grouped,
}

module _ {ℓ} {K A : Type ℓ} ⦃e : Eq K⦄ (key : A → K) where
  abbrev enter : Dict K A → A → Dict K A
  enter d a = put (key a) a d

  lookup-enter_other :
      (k : K) (d : Dict K A) (a : A) → ¬ (key a ≡ k) → lookup k (enter d a) ≡ lookup k d
  lookup-enter_other k d a ne = elim (eq-cases (key a) k) [
    | inl same ↦ absurd (ne same)
    | inr other ↦ rw (lookup-put, other) refl
  ]

  lookup-other :
      (k : K) (d : Dict K A) (xs : List A)
      → ¬ Memᴰ k (map key xs)
      → lookup k (foldl enter d xs) ≡ lookup k d
  lookup-other k d [] n = refl
  lookup-other k d (a ∷ xs) n =
      lookup-other k (enter d a) xs (λ m. n (Memᴰ.tail m))
      ∙ lookup-enter_other k d a (λ same. n (Memᴰ.head (sym same)))

  lookup-to :
      (k : K) (d : Dict K A) (xs : List A) (a : A)
      → lookup k (foldl enter d xs) ≡ some a
      → (lookup k d ≡ some a) ⊎ (Memᴰ a xs × (key a ≡ k))
  lookup-to k d [] a h = inl h
  lookup-to k d (x ∷ xs) a h = elim (lookup-to k (enter d x) xs a h) [
    | inr (m, same) ↦ inr (Memᴰ.tail m, same)
    | inl now ↦ elim (eq-cases (key x) k) [
      | inr other ↦ inl (rw (lookup-put, other) at now)
      | inl same ↦
          let put_here : lookup k (enter d x) ≡ some x =
            rw (sym same) (lookup-put_self (key x) x d) in
          let eq : a ≡ x = some-injective _ _ (sym now ∙ put_here) in
          inr (Memᴰ.head eq, ap key eq ∙ same)
    ]
  ]

  lookup-from :
      (d : Dict K A) (xs : List A) (a : A)
      → Distinct (map key xs)
      → Memᴰ a xs
      → lookup (key a) (foldl enter d xs) ≡ some a
  lookup-from d [] a distinct m = absurd (Memᴰ.not-nil m)
  lookup-from d (x ∷ xs) a distinct m = elim (Memᴰ.cases_cons m) [
    | inl same ↦
        rw same (lookup-other (key x) (enter d x) xs distinct.0 ∙ lookup-put_self (key x) x d)
    | inr later ↦ lookup-from (enter d x) xs a distinct.1 later
  ]

  -- Where no two elements have one key, each is found under its own.
  pub lookup-dict_of :
      (xs : List A) (k : K) (a : A)
      → Distinct (map key xs)
      → (lookup k (dict_of key xs) ≡ some a) ↔ (Memᴰ a xs × (key a ≡ k))
  unfolding dict_of lookup
  lookup-dict_of xs k a distinct = (
    λ h. elim (lookup-to k [] xs a h) [ inl never ↦ cc | inr found ↦ found ],
    λ (m, same). rw (sym same) (lookup-from [] xs a distinct m),
  )

  abbrev append_to : Dict K (List A) → A → Dict K (List A)
  append_to d a = put (key a) (group_of (key a) d ++ a ∷ []) d

  group_of-append_to :
      (k : K) (d : Dict K (List A)) (a : A)
      → group_of k (append_to d a) ≡ (if key a == k then group_of k d ++ a ∷ [] else group_of k d)
  unfolding group_of or_empty
  group_of-append_to k d a =
      ap or_empty (lookup-put (key a) k (group_of (key a) d ++ a ∷ []) d) ∙ chosen
    where
      chosen :
          or_empty (if key a == k then some (group_of (key a) d ++ a ∷ []) else lookup k d)
          ≡ (if key a == k then group_of k d ++ a ∷ [] else group_of k d)
      chosen = elim (eq-cases (key a) k) [
        | inl same ↦ rw (same, eq_refl) refl
        | inr other ↦ rw other refl
      ]

  group_of-foldl :
      (k : K) (d : Dict K (List A)) (xs : List A)
      → group_of k (foldl append_to d xs) ≡ group_of k d ++ keep_if (λ a. key a == k) xs
  group_of-foldl k d [] = sym (append-nil (group_of k d))
  group_of-foldl k d (a ∷ xs) =
      let later = group_of-foldl k (append_to d a) xs in
      elim (Bool-cases (key a == k)) [
        | inl same ↦
            rw (later, group_of-append_to, same)
              (append_assoc (group_of k d) (a ∷ []) (keep_if (λ b. key b == k) xs))
        | inr other ↦ rw (later, group_of-append_to, other) refl
      ]

  -- A group holds the elements of its key, in their order.
  pub group_of-grouped :
      (k : K) (xs : List A) → group_of k (grouped key xs) ≡ keep_if (λ a. key a == k) xs
  unfolding grouped group_of or_empty lookup
  group_of-grouped k xs = group_of-foldl k [] xs
