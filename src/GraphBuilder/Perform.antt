-- ===== src/GraphBuilder/Perform.antt =====
-- src/p2_satellite/graph_builder.py: what one call of add_node or add_edge does to the graph.
use p2_ai_knowledge_graph_fo.Base.{
  ◌≡◌, refl, sym, ap, ◌∙◌, ◌↔◌, ◌⊎◌, inl, inr, ⊎_elim, true, Bool-cases, ◌∷◌, ◌++◌, some, Text,
  Memᴰ, contains, list_eq, nat_eq, eq-cases, ne_of_beq-false,
}
use p2_ai_knowledge_graph_fo.Schema.{node_id, split_node_id, node_types, colon}
use p2_ai_knowledge_graph_fo.Schema.RoundTrip.{split_node_id-node_id}
use p2_ai_knowledge_graph_fo.Traversal.{EdgeData}
use p2_ai_knowledge_graph_fo.GraphBuilder.{node, edge, Networkx, perform, active_edge}
use p2_ai_knowledge_graph_fo.GraphBuilder.Exact.{between, Valid}

-- The id of a node by its type and key.
abbrev pub id_of : Text × Text → Text
id_of (t, k) = t ++ colon ∷ k

pub node_id-known : (t k : Text) → contains t node_types ≡ true → node_id t k ≡ some (id_of (t, k))
unfolding node_id
node_id-known t k h = rw h refl

pub split-id_of : (a : Text × Text) → contains a.0 node_types ≡ true → split_node_id (id_of a) ≡ a
split-id_of (t, k) h = split_node_id-node_id t k (id_of (t, k)) (node_id-known t k h)

module _ {G : Type 0} (nx : Networkx G) where
  -- Each edge has the type that goes with its ends.
  abbrev pub IsTyped : G → Type 0
  IsTyped g =
      (u v : Text) (d : EdgeData)
      → Memᴰ (u, v, d) (nx.edges g)
      → d ≡ active_edge (between (split_node_id u).0 (split_node_id v).0)

  pub perform-node :
      (g : G) (t k : Text)
      → contains t node_types ≡ true
      → (g' : G) × (perform nx g (node t k) ≡ some g')
        × ((e : Text × Text × EdgeData) → Memᴰ e (nx.edges g') ↔ Memᴰ e (nx.edges g))
  unfolding perform
  perform-node g t k known = elim (Bool-cases (nx.has_node g (id_of (t, k)))) [
    | inl there ↦ (g, rw (node_id-known t k known, there) refl, λ e. (λ m. m, λ m. m))
    | inr new ↦ (
      nx.add_node (id_of (t, k)) (record { node_type = t; node_key = k }) g,
      rw (node_id-known t k known, new) refl,
      nx.mem_edges-add_node (id_of (t, k)) (record { node_type = t; node_key = k }) g,
    )
  ]

  pub perform-edge :
      (g : G) (t : Text) (a b : Text × Text)
      → Valid t a b
      → perform nx g (edge t a b) ≡ some (nx.add_edge (id_of a) (id_of b) (active_edge t) g)
  unfolding perform
  perform-edge g t (a, k) (b, j) (valid, known, known', _) =
      rw (valid, node_id-known a k known, node_id-known b j known') refl

  typed_by_ends :
      (t : Text) (a b : Text × Text)
      → Valid t a b
      → active_edge t
        ≡ active_edge (between (split_node_id (id_of a)).0 (split_node_id (id_of b)).0)
  typed_by_ends t a b (valid, known, known', typed) =
      rw (split-id_of a known, split-id_of b known') (ap active_edge typed)

  -- An edge that is added again is the same edge.
  pub mem-add_edge :
      (g : G) (t : Text) (a b : Text × Text)
      → Valid t a b
      → IsTyped g
      → (u v : Text) (d : EdgeData)
      → Memᴰ (u, v, d) (nx.edges (nx.add_edge (id_of a) (id_of b) (active_edge t) g))
        ↔ (Memᴰ (u, v, d) (nx.edges g) ⊎ ((u ≡ id_of a) × (v ≡ id_of b) × (d ≡ active_edge t)))
  mem-add_edge g t a b valid typed u v d =
      let (to, from) = nx.mem_edges-add_edge (id_of a) (id_of b) t g u v d in
      (
        λ m. ⊎_elim (λ old. inl old.0) inr (to m),
        ⊎_elim
            (λ old. elim (eq-cases u (id_of a)) [
              | inr other ↦ from (inl (old, λ both. ne_of_beq-false u (id_of a) other both.0))
              | inl starts ↦ elim (eq-cases v (id_of b)) [
                | inr other ↦ from (inl (old, λ both. ne_of_beq-false v (id_of b) other both.1))
                | inl ends ↦ from (
                    inr (
                      starts,
                      ends,
                      typed u v d old
                          ∙ ap
                              (λ (p : Text × Text).
                                active_edge (between (split_node_id p.0).0 (split_node_id p.1).0))
                              (ap (λ w. (u, w)) ends ∙ ap (λ w. (w, id_of b)) starts)
                          ∙ sym (typed_by_ends t a b valid),
                    ))
              ]
            ])
            (λ new. from (inr new)),
      )

  pub IsTyped-add_edge :
      (g : G) (t : Text) (a b : Text × Text)
      → Valid t a b
      → IsTyped g
      → IsTyped (nx.add_edge (id_of a) (id_of b) (active_edge t) g)
  IsTyped-add_edge g t a b valid typed u v d m =
      elim ((mem-add_edge g t a b valid typed u v d).0 m) [
        | inl old ↦ typed u v d old
        | inr (starts, ends, eq) ↦ rw (starts, ends) (eq ∙ typed_by_ends t a b valid)
      ]
