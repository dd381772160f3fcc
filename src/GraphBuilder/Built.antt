-- ===== src/GraphBuilder/Built.antt =====
-- src/p2_satellite/graph_builder.py: build_graph returns, and its edges are those of the exports.
use mathlib.Core.List.Memᴰ
use p2_ai_knowledge_graph_fo.Base.{
  ◌≡◌, refl, ap, ◌∙◌, subst, ◌↔◌, ◌⊎◌, inl, inr, ⊎_elim, List, [], ◌∷◌, some, Text, Memᴰ, list_eq,
  nat_eq,
}
use p2_ai_knowledge_graph_fo.Traversal.{EdgeData}
use p2_ai_knowledge_graph_fo.GraphBuilder.{
  Exports, Call, node, edge, calls_of, Networkx, perform_all, build_graph, active_edge,
}
use p2_ai_knowledge_graph_fo.GraphBuilder.Calls.{Exported, AllEdges, AllEdges-calls_of}
use p2_ai_knowledge_graph_fo.GraphBuilder.Exact.{Valid, Exported-Valid, in_calls}
use p2_ai_knowledge_graph_fo.GraphBuilder.Perform.{
  id_of, IsTyped, perform-node, perform-edge, mem-add_edge, IsTyped-add_edge,
}

module _ {G : Type 0} (nx : Networkx G) where
  -- The edge is what one of the calls adds.
  abbrev AddedBy : List Call → Text → Text → EdgeData → Type 0
  AddedBy calls u v d =
      (t : Text) × (a : Text × Text) × (b : Text × Text) × Memᴰ (edge t a b) calls
      × (u ≡ id_of a)
      × (v ≡ id_of b)
      × (d ≡ active_edge t)

  -- What the graph holds of the edge once the calls are made.
  abbrev Held : G → List Call → Text → Text → EdgeData → Type 0
  Held g calls u v d = Memᴰ (u, v, d) (nx.edges g) ⊎ AddedBy calls u v d

  AddedBy-node :
      (g g' : G) (t k : Text) (calls : List Call) (u v : Text) (d : EdgeData)
      → ((e : Text × Text × EdgeData) → Memᴰ e (nx.edges g') ↔ Memᴰ e (nx.edges g))
      → Held g' calls u v d ↔ Held g (node t k ∷ calls) u v d
  AddedBy-node g g' t k calls u v d same = (
    ⊎_elim (λ old. inl ((same _).0 old))
        (λ (t', a, b, m, starts, ends, eq). inr (t', a, b, Memᴰ.tail m, starts, ends, eq)),
    ⊎_elim (λ old. inl ((same _).1 old))
        (λ (t', a, b, m, starts, ends, eq). elim (Memᴰ.cases_cons m) [
          | inl e ↦ absurd (cc e)
          | inr later ↦ inr (t', a, b, later, starts, ends, eq)
        ]),
  )

  AddedBy-edge :
      (g : G) (t : Text) (a b : Text × Text) (calls : List Call) (u v : Text) (d : EdgeData)
      → Valid t a b
      → IsTyped nx g
      → Held (nx.add_edge (id_of a) (id_of b) (active_edge t) g) calls u v d
        ↔ Held g (edge t a b ∷ calls) u v d
  AddedBy-edge g t a b calls u v d valid typed =
      let (to, from) = mem-add_edge nx g t a b valid typed u v d in
      (
        ⊎_elim
            (λ m. elim (to m) [
              | inl old ↦ inl old
              | inr (starts, ends, eq) ↦ inr (t, a, b, Memᴰ.head refl, starts, ends, eq)
            ])
            (λ (t', a', b', m, starts, ends, eq). inr (t', a', b', Memᴰ.tail m, starts, ends, eq)),
        ⊎_elim (λ old. inl (from (inl old)))
            (λ (t', a', b', m, starts, ends, eq). elim (Memᴰ.cases_cons m) [
              | inl e ↦
                  let same : t' ≡ t = cc e in
                  let same_a : a' ≡ a = cc e in
                  let same_b : b' ≡ b = cc e in
                  inl (
                    from (
                      inr (
                        starts ∙ ap id_of same_a,
                        ends ∙ ap id_of same_b,
                        eq ∙ ap active_edge same,
                      )))
              | inr later ↦ inr (t', a', b', later, starts, ends, eq)
            ]),
      )

  perform_all-edges :
      (calls : List Call) (g : G)
      → AllEdges Valid calls
      → IsTyped nx g
      → (g' : G) × (perform_all nx g calls ≡ some g')
        × ((u v : Text) (d : EdgeData) → Memᴰ (u, v, d) (nx.edges g') ↔ Held g calls u v d)
  unfolding perform_all
  perform_all-edges [] g all typed =
      (g, refl, λ u v d. (inl, ⊎_elim (λ m. m) (λ t. absurd (Memᴰ.not-nil t.3))))
  perform_all-edges (node t k ∷ calls) g all typed =
      let (g₁, ends₁, same) = perform-node nx g t k (all (node t k) (Memᴰ.head refl)) in
      let (g', ends, held) =
        perform_all-edges calls g₁ (λ c m. all c (Memᴰ.tail m))
          (λ u v d m. typed u v d ((same (u, v, d)).0 m)) in
      (
        g',
        rw ends₁ ends,
        λ u v d.
            let (to, from) = AddedBy-node g g₁ t k calls u v d same in
            (λ m. to ((held u v d).0 m), λ h. (held u v d).1 (from h)),
      )
  perform_all-edges (edge t a b ∷ calls) g all typed =
      let valid = all (edge t a b) (Memᴰ.head refl) in
      let (g', ends, held) =
        perform_all-edges calls (nx.add_edge (id_of a) (id_of b) (active_edge t) g)
          (λ c m. all c (Memᴰ.tail m)) (IsTyped-add_edge nx g t a b valid typed) in
      (
        g',
        rw (perform-edge nx g t a b valid) ends,
        λ u v d.
            let (to, from) = AddedBy-edge g t a b calls u v d valid typed in
            (λ m. to ((held u v d).0 m), λ h. (held u v d).1 (from h)),
      )

-- The graph's edges are those that the exports name.
abbrev pub IsExact : {G : Type 0} → Networkx G → Exports → G → Type 0
IsExact nx x graph =
    (u v : Text) (d : EdgeData)
    → Memᴰ (u, v, d) (nx.edges graph) ↔ (
        (t : Text) × (a : Text × Text) × (b : Text × Text) × Exported x t a b
        × (u ≡ id_of a)
        × (v ≡ id_of b)
        × (d ≡ active_edge t))

-- The build returns, whatever the exports hold, and the graph's edges are those of the exports: between
-- the ids of the nodes that one of its entries joins, of the type that goes with them, and active.
pub build_graph-exact :
    {G : Type 0} (nx : Networkx G) (x : Exports)
    → (g : G) × (build_graph nx x ≡ some g)
      × ((u v : Text) (d : EdgeData)
          → Memᴰ (u, v, d) (nx.edges g) ↔ (
              (t : Text) × (a : Text × Text) × (b : Text × Text) × Exported x t a b
              × (u ≡ id_of a)
              × (v ≡ id_of b)
              × (d ≡ active_edge t)))
unfolding build_graph
build_graph-exact nx x =
    let none_yet = λ (e : Text × Text × EdgeData) (m : Memᴰ e (nx.edges nx.empty)).
      Memᴰ.not-nil (subst (Memᴰ e) nx.edges-empty m) in
    let (g, ends, held) =
      perform_all-edges nx (calls_of x) nx.empty
        (AllEdges-calls_of Valid x (λ t a b e. Exported-Valid x e))
        (λ u v d m. absurd (none_yet (u, v, d) m)) in
    (
      g,
      ends,
      λ u v d. (
        λ m. elim ((held u v d).0 m) [
          | inl never ↦ absurd (none_yet (u, v, d) never)
          | inr (t, a, b, called, starts, ends', eq) ↦ (
            t,
            a,
            b,
            AllEdges-calls_of (Exported x) x (λ t a b e. e) (edge t a b) called,
            starts,
            ends',
            eq,
          )
        ],
        λ (t, a, b, e, starts, ends', eq).
            (held u v d).1 (inr (t, a, b, in_calls x e, starts, ends', eq)),
      ),
    )
