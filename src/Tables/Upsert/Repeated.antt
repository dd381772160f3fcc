-- ===== src/Tables/Upsert/Repeated.antt =====
-- core-side-patch/models.py: two edges with one key stay so when an edge is pushed.
use mathlib.Core.List.Memᴰ
use p2_ai_knowledge_graph_fo.Base.{
  ℕ, suc, ◌≤◌, ◌≡◌, refl, sym, ap, ◌∙◌, inl, inr, Bool, true, List, [], ◌∷◌, ◌++◌, map, length,
  Option, none, some, Text, keep_if, Memᴰ, arith, list_eq, nat_eq, pair_eq,
}
use p2_ai_knowledge_graph_fo.Tables.{GovernanceGraphEdge, one_or_none}
use p2_ai_knowledge_graph_fo.Tables.Upsert.{
  EdgeStructureItem, Upserting, has_edge_key, write_edge, insert_edge, refresh_edge,
}
use p2_ai_knowledge_graph_fo.Tables.Upsert.Edges.{refreshed, update_edge-map}

module _ {A : Type 0} (p : A → Bool) where
  kept_last : (xs : List A) (y : A) → length (keep_if p xs) ≤ length (keep_if p (xs ++ y ∷ []))
  kept_last [] y = omega arith
  kept_last (z ∷ xs) y = ground (arith, kept_last xs y)

  kept_map :
      (f : A → A) (xs : List A)
      → ((x : A) → p (f x) ≡ p x)
      → length (keep_if p (map f xs)) ≡ length (keep_if p xs)
  kept_map f [] same = refl
  kept_map f (z ∷ xs) same = ground (arith, kept_map f xs same, same z)

  kept_one : (xs : List A) (x : A) → Memᴰ x xs → p x ≡ true → 1 ≤ length (keep_if p xs)
  kept_one [] x m here = absurd (Memᴰ.not-nil m)
  kept_one (z ∷ xs) x m here = elim (Memᴰ.cases_cons m) [
    | inl e ↦ let first : p z ≡ true = ap p (sym e) ∙ here in rw first (omega arith)
    | inr later ↦ let rest = kept_one xs x later here in ground (arith, rest)
  ]

  kept_snoc :
      (xs : List A) (y : A)
      → p y ≡ true
      → length (keep_if p (xs ++ y ∷ [])) ≡ suc (length (keep_if p xs))
  kept_snoc [] y there = rw there refl
  kept_snoc (z ∷ xs) y there = ground (arith, kept_snoc xs y there)

  pub kept_twice :
      (xs : List A) (x y : A)
      → Memᴰ x xs
      → p x ≡ true
      → p y ≡ true
      → 2 ≤ length (keep_if p (xs ++ y ∷ []))
  kept_twice xs x y m here there = omega (arith, kept_one xs x m here, kept_snoc xs y there)

pub raises : {A : Type 0} (rows : List A) → 2 ≤ length rows → one_or_none rows ≡ none
unfolding one_or_none
raises [] h = absurd (omega (arith, h))
raises (a ∷ []) h = absurd (omega (arith, h))
raises (a ∷ b ∷ rows) h = refl

module _ (org s t : ℕ) (ty : Text) where
  -- Several rows have this organisation, ends and type.
  abbrev pub IsRepeated : List GovernanceGraphEdge → Type 0
  IsRepeated edges = 2 ≤ length (keep_if (has_edge_key org s t ty) edges)

  key_kept :
      (id : ℕ) (edge : EdgeStructureItem) (e : GovernanceGraphEdge)
      → has_edge_key org s t ty (refreshed id edge e) ≡ has_edge_key org s t ty e
  unfolding has_edge_key
  key_kept id edge e = ground arith

  pub write_edge-IsRepeated :
      (i j : ℕ) (edge : EdgeStructureItem) (u : Upserting) (existing : Option GovernanceGraphEdge)
      → IsRepeated u.session.edges
      → IsRepeated (write_edge org i j edge u existing).session.edges
        × ((write_edge org i j edge u existing).node_id_by_key ≡ u.node_id_by_key)
  unfolding write_edge insert_edge refresh_edge
  write_edge-IsRepeated i j edge u none h =
      let le = kept_last (has_edge_key org s t ty) u.session.edges in (omega (arith, h, le _), refl)
  write_edge-IsRepeated i j edge u (some existing) h = (
    rw (update_edge-map existing.id edge u.session.edges) (
        let e =
          kept_map (has_edge_key org s t ty) (refreshed existing.id edge) u.session.edges
            (key_kept existing.id edge) in
        omega (arith, h, e)),
    refl,
  )
