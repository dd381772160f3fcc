-- ===== src/GraphBuilder/Whole.antt =====
-- src/p2_satellite/graph_builder.py: every node of the graph that build_graph makes has the type and
-- the key of its id, and edges join such nodes.
use mathlib.Core.List.Memᴰ
use p2_ai_knowledge_graph_fo.Base.{
  ◌≡◌, refl, sym, ap, ◌∙◌, subst, inl, inr, ⊎_elim, true, List, [], ◌∷◌, some, Text, Memᴰ, contains,
  list_eq, nat_eq, Bool-cases, eq-cases, eq_refl,
}
use p2_ai_knowledge_graph_fo.Schema.{split_node_id, node_types, node_ai_system}
use p2_ai_knowledge_graph_fo.Traversal.{EdgeData, NodeData}
use p2_ai_knowledge_graph_fo.GraphBuilder.{
  AiSystemItem, Exports, Call, node, edge, calls_of, calls_of_ai_system, build_graph, Networkx,
  perform, perform_all, active_edge,
}
use p2_ai_knowledge_graph_fo.GraphBuilder.Calls.{AllEdges, AllEdges-calls_of, mem-for_each}
use p2_ai_knowledge_graph_fo.GraphBuilder.Exact.{Valid, Exported-Valid}
use p2_ai_knowledge_graph_fo.GraphBuilder.Perform.{id_of, node_id-known, split-id_of, perform-edge}
use p2_ai_knowledge_graph_fo.GraphBuilder.Ready.{Ready, Ready-calls_of}

abbrev pub data_of : Text → NodeData
data_of v = record { node_type = (split_node_id v).0; node_key = (split_node_id v).1 }

module _ {G : Type 0} (nx : Networkx G) where
  pub record IsWhole (g : G) : Type 0 where
    pub attributes : (v : Text) → Memᴰ v (nx.nodes g) → nx.node_data g v ≡ some (data_of v)
    pub named : (v : Text) → Memᴰ v (nx.nodes g) → id_of (split_node_id v) ≡ v
    pub ends :
        (e : Text × Text × EdgeData)
        → Memᴰ e (nx.edges g)
        → Memᴰ e.0 (nx.nodes g) × Memᴰ e.1 (nx.nodes g)

  -- What a call leads to: a whole graph, with the old nodes and these.
  abbrev LeadsTo : G → List (Text × Text) → G → Type 0
  LeadsTo g added g' =
      IsWhole g'
      × ((v : Text) → Memᴰ v (nx.nodes g) → Memᴰ v (nx.nodes g'))
      × ((a : Text × Text) → Memᴰ a added → Memᴰ (id_of a) (nx.nodes g'))

  add_node-IsWhole :
      (g : G) (t k : Text)
      → contains t node_types ≡ true
      → IsWhole g
      → IsWhole (nx.add_node (id_of (t, k)) (record { node_type = t; node_key = k }) g)
  add_node-IsWhole g t k known whole =
      let nid = id_of (t, k) in
      let d : NodeData = record { node_type = t; node_key = k } in
      let split = split-id_of (t, k) known in
      let mem = nx.mem_nodes-add_node nid d g in
      record {
        attributes = λ v m. elim (eq-cases nid v) [
          | inl same ↦ rw (nx.node_data-add_node nid d g v, sym same, eq_refl nid) (cc split)
          | inr other ↦
              rw (nx.node_data-add_node nid d g v, other)
                (elim ((mem v).0 m) [
                  | inl old ↦ whole.attributes v old
                  | inr e ↦ cc (other, e, eq_refl nid)
                ])
        ];
        named = λ v m. elim ((mem v).0 m) [
          | inl old ↦ whole.named v old
          | inr e ↦ rw e (ap id_of split)
        ];
        ends = λ e m.
            let (from, to) = whole.ends e ((nx.mem_edges-add_node nid d g e).0 m) in
            ((mem e.0).1 (inl from), (mem e.1).1 (inl to));
      }

  perform-node-LeadsTo :
      (g : G) (t k : Text)
      → contains t node_types ≡ true
      → IsWhole g
      → (g' : G) × (perform nx g (node t k) ≡ some g') × LeadsTo g ((t, k) ∷ []) g'
  unfolding perform
  perform-node-LeadsTo g t k known whole = elim (Bool-cases (nx.has_node g (id_of (t, k)))) [
    | inl there ↦ (
      g,
      rw (node_id-known t k known, there) refl,
      (
        whole,
        λ v m. m,
        λ a m. Memᴰ.cast (ap id_of (Memᴰ.eq_of_singleton m)) ((nx.has_node_iff g _).0 there),
      ),
    )
    | inr new ↦
        let d : NodeData = record { node_type = t; node_key = k } in
        let mem = nx.mem_nodes-add_node (id_of (t, k)) d g in
        (
          nx.add_node (id_of (t, k)) d g,
          rw (node_id-known t k known, new) refl,
          (
            add_node-IsWhole g t k known whole,
            λ v m. (mem v).1 (inl m),
            λ a m. (mem (id_of a)).1 (inr (ap id_of (Memᴰ.eq_of_singleton m))),
          ),
        )
  ]

  add_edge-LeadsTo :
      (g : G) (t : Text) (a b : Text × Text)
      → Memᴰ (id_of a) (nx.nodes g)
      → Memᴰ (id_of b) (nx.nodes g)
      → IsWhole g
      → LeadsTo g [] (nx.add_edge (id_of a) (id_of b) (active_edge t) g)
  add_edge-LeadsTo g t a b from to whole =
      let mem = nx.mem_nodes-add_edge (id_of a) (id_of b) (active_edge t) g in
      let there =
        λ (v : Text) (m : Memᴰ v (nx.nodes (nx.add_edge (id_of a) (id_of b) (active_edge t) g))).
          ⊎_elim (λ old. old) (⊎_elim (λ e. Memᴰ.cast e from) (λ e. Memᴰ.cast e to))
            ((mem v).0 m) in
      let same = λ (v : Text).
        nx.node_data-add_edge (id_of a) (id_of b) (active_edge t) g v
          ((nx.has_node_iff g (id_of a)).1 from) ((nx.has_node_iff g (id_of b)).1 to) in
      (
        record {
          attributes = λ v m. same v ∙ whole.attributes v (there v m);
          named = λ v m. whole.named v (there v m);
          ends = λ (u, v, d) m. elim ((nx.mem_edges-add_edge (id_of a) (id_of b) t g u v d).0 m) [
            | inl (old, _) ↦
                let (starts, ends) = whole.ends (u, v, d) old in
                ((mem u).1 (inl starts), (mem v).1 (inl ends))
            | inr (starts, ends, _) ↦ ((mem u).1 (inr (inl starts)), (mem v).1 (inr (inr ends)))
          ];
        },
        λ v m. (mem v).1 (inl m),
        λ c m. absurd (Memᴰ.not-nil m),
      )

  -- The calls lead to a whole graph with the node of each.
  pub perform_all-IsWhole :
      (calls : List Call) (known : List (Text × Text)) (g : G)
      → Ready known calls
      → AllEdges Valid calls
      → ((a : Text × Text) → Memᴰ a known → Memᴰ (id_of a) (nx.nodes g))
      → IsWhole g
      → (g' : G) × (perform_all nx g calls ≡ some g')
        × IsWhole g'
        × ((v : Text) → Memᴰ v (nx.nodes g) → Memᴰ v (nx.nodes g'))
        × ((t k : Text) → Memᴰ (node t k) calls → Memᴰ (id_of (t, k)) (nx.nodes g'))
  unfolding perform_all Ready
  perform_all-IsWhole [] known g ready valid there whole =
      (g, refl, whole, λ v m. m, λ t k m. absurd (Memᴰ.not-nil m))
  perform_all-IsWhole (node t k ∷ calls) known g ready valid there whole =
      let (g₁, one, (whole₁, old, new)) =
        perform-node-LeadsTo g t k (valid (node t k) (Memᴰ.head refl)) whole in
      let (g', rest, whole', old', new') =
        perform_all-IsWhole calls ((t, k) ∷ known) g₁ ready (λ c m. valid c (Memᴰ.tail m))
          (λ a m. elim (Memᴰ.cases_cons m) [
            | inl e ↦ new a (Memᴰ.head e)
            | inr before ↦ old (id_of a) (there a before)
          ])
          whole₁ in
      (
        g',
        rw one rest,
        whole',
        λ v m. old' v (old v m),
        λ t' k' m. elim (Memᴰ.cases_cons m) [
          | inl e ↦ old' _ (new (t', k') (Memᴰ.head (cc e)))
          | inr later ↦ new' t' k' later
        ],
      )
  perform_all-IsWhole (edge t a b ∷ calls) known g (from, to, ready) valid there whole =
      let (whole₁, old, _) = add_edge-LeadsTo g t a b (there a from) (there b to) whole in
      let (g', rest, whole', old', new') =
        perform_all-IsWhole calls known (nx.add_edge (id_of a) (id_of b) (active_edge t) g) ready
          (λ c m. valid c (Memᴰ.tail m)) (λ c m. old (id_of c) (there c m)) whole₁ in
      (
        g',
        rw (perform-edge nx g t a b (valid (edge t a b) (Memᴰ.head refl))) rest,
        whole',
        λ v m. old' v (old v m),
        λ t' k' m. elim (Memᴰ.cases_cons m) [
          | inl e ↦ absurd (cc e)
          | inr later ↦ new' t' k' later
        ],
      )

  empty-IsWhole : IsWhole nx.empty
  empty-IsWhole = record {
    attributes = λ v m. absurd (Memᴰ.not-nil (subst (Memᴰ v) nx.nodes-empty m));
    named = λ v m. absurd (Memᴰ.not-nil (subst (Memᴰ v) nx.nodes-empty m));
    ends = λ e m. absurd (Memᴰ.not-nil (subst (Memᴰ e) nx.edges-empty m));
  }

  system_called :
      (x : Exports) (s : AiSystemItem)
      → Memᴰ s x.ai_systems
      → Memᴰ (node node_ai_system s.id) (calls_of x)
  unfolding calls_of calls_of_ai_system
  system_called x s m = Memᴰ.append_right _ (
      (mem-for_each (node node_ai_system s.id) x.ai_systems calls_of_ai_system).1
        (s, m, Memᴰ.head refl))

  -- Whatever the exports hold, the build returns, each node of the graph has the type and the key of its
  -- id, edges join nodes, and every system of the exports is a node.
  pub build_graph-IsWhole :
      (x : Exports)
      → (g : G) × (build_graph nx x ≡ some g)
        × IsWhole g
        × ((s : AiSystemItem)
            → Memᴰ s x.ai_systems
            → Memᴰ (id_of (node_ai_system, s.id)) (nx.nodes g))
  unfolding build_graph
  build_graph-IsWhole x =
      let (g, ends, whole, _, called) =
        perform_all-IsWhole (calls_of x) [] nx.empty (Ready-calls_of x)
          (AllEdges-calls_of Valid x (λ t a b e. Exported-Valid x e))
          (λ a m. absurd (Memᴰ.not-nil m)) empty-IsWhole in
      (g, ends, whole, λ s m. called node_ai_system s.id (system_called x s m))
