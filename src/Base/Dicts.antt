-- ===== src/Base/Dicts.antt =====
-- Python's `dict` as the list of its items in the order of insertion.
use mathlib.Core.Path.{◌≡◌, refl}
use mathlib.Core.Option.{Option, none, some}
use mathlib.Core.List.{List, [], ◌∷◌, ◌++◌, foldl}
use native.Mathlib.Omega.{arith}
use p2_ai_knowledge_graph_fo.Base.Tests.{if◌then◌else◌}
use p2_ai_knowledge_graph_fo.Base.Equality.{Eq, ◌==◌, eq_iff, eq_refl}

abbrev pub Dict {ℓ} : Type ℓ → Type ℓ → Type ℓ
Dict K V = List (K × V)

module _ {ℓ} {K V : Type ℓ} ⦃e : Eq K⦄ where
  -- `d.get(k)`
  unfoldable pub lookup : K → Dict K V → Option V
  lookup k [] = none
  lookup k ((j, v) ∷ d) = if j == k then some v else lookup k d

  -- `d[k] = v`: a key that is there keeps its place.
  unfoldable pub put : K → V → Dict K V → Dict K V
  put k v [] = (k, v) ∷ []
  put k v ((j, w) ∷ d) = if j == k then (j, v) ∷ d else (j, w) ∷ put k v d

  -- `del d[k]`
  unfoldable pub remove : K → Dict K V → Dict K V
  remove k [] = []
  remove k ((j, w) ∷ d) = let rest = remove k d in if j == k then rest else (j, w) ∷ rest

  pub lookup-put :
      (k j : K) (v : V) (d : Dict K V)
      → lookup j (put k v d) ≡ (if k == j then some v else lookup j d)
  unfolding lookup put
  lookup-put k j v [] = refl
  lookup-put k j v ((i, w) ∷ d) =
      ground (arith, eq_iff k j, eq_iff i k, eq_iff i j, lookup-put k j v d)

  pub lookup-remove :
      (k j : K) (d : Dict K V) → lookup j (remove k d) ≡ (if k == j then none else lookup j d)
  unfolding lookup remove
  lookup-remove k j [] = ground arith
  lookup-remove k j ((i, w) ∷ d) =
      ground (arith, lookup-remove k j d, eq_iff i k, eq_iff i j, eq_iff k j)

  pub lookup-put_self : (k : K) (v : V) (d : Dict K V) → lookup k (put k v d) ≡ some v
  lookup-put_self k v d = simp (lookup-put, eq_refl)

module _ {ℓ} {A : Type ℓ} where
  unfoldable pub or_empty : Option (List A) → List A
  or_empty none = []
  or_empty (some g) = g

module _ {ℓ} {K A : Type ℓ} ⦃e : Eq K⦄ where
  -- `d.get(k, [])`
  unfoldable pub group_of : K → Dict K (List A) → List A
  group_of k d = or_empty (lookup k d)

module _ {ℓ} {K A : Type ℓ} ⦃e : Eq K⦄ (key : A → K) where
  -- `{key(a): a for a in xs}`
  unfoldable pub dict_of : List A → Dict K A
  dict_of = foldl (λ d a. put (key a) a d) []

  -- `d.setdefault(key(a), []).append(a)` for each `a`
  unfoldable pub grouped : List A → Dict K (List A)
  grouped = foldl (λ d a. put (key a) (group_of (key a) d ++ a ∷ []) d) []
