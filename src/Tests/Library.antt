-- ===== src/Tests/Library.antt =====
-- Functions that stand for networkx and tenacity at the concrete inputs of the tests.
use mathlib.Core.List.Memᴰ
use p2_ai_knowledge_graph_fo.Base.{
  ℕ, zero, suc, ◌≡◌, refl, ap, ◌↔◌, ◌⊎◌, inl, inr, ⊎_elim, Bool, true, false, not, ◌&&◌, List, [],
  ◌∷◌, ◌++◌, Text, Memᴰ, contains, add, keep_if, mem-keep_if, mem-snoc, ◌==◌, eq_iff, list_eq,
  nat_eq, arith, if◌then◌else◌, ◌≤◌, Option, none, some, Dict, lookup, put, lookup-put,
  contains_iff, mem-add, map, mem-map, length, length-map, length-keep_if-le, eq_refl,
}
use p2_ai_knowledge_graph_fo.Traversal.{EdgeData, NodeData}
use p2_ai_knowledge_graph_fo.GraphBuilder.{Networkx, active_edge}
use p2_ai_knowledge_graph_fo.Retry.{Result, is_retryable, Tenacity}

-- A graph as the lists of its nodes and its edges, and the attributes of nodes.
pub record Lists : Type 0 where
  pub nodes : List Text
  pub edges : List (Text × Text × EdgeData)
  pub attributes : Dict Text NodeData

abbrev pub others : Text → Text → Text × Text × EdgeData → Bool
others s t e = not ((e.0 == s) && (e.1 == t))

pub mem-others :
    (s t : Text) (d : EdgeData) (es : List (Text × Text × EdgeData)) (u v : Text) (d' : EdgeData)
    → Memᴰ (u, v, d') (keep_if (others s t) es ++ (s, t, d) ∷ [])
      ↔ ((Memᴰ (u, v, d') es × (¬ ((u ≡ s) × (v ≡ t)))) ⊎ ((u ≡ s) × (v ≡ t) × (d' ≡ d)))
mem-others s t d es u v d' =
    let (to, from) = mem-snoc (u, v, d') (s, t, d) (keep_if (others s t) es) in
    let (kept_to, kept_from) = mem-keep_if (others s t) (u, v, d') es in
    (
      λ m. elim (to m) [
        | inl kept ↦
            let (old, passes) = kept_to kept in
            inl (old, λ both. ground (arith, passes, both, eq_iff u s, eq_iff v t))
        | inr eq ↦ inr (
          ap (λ (e : Text × Text × EdgeData). e.0) eq,
          ap (λ (e : Text × Text × EdgeData). e.1) eq,
          ap (λ (e : Text × Text × EdgeData). e.2) eq,
        )
      ],
      ⊎_elim
          (λ (old, differs).
            from (inl (kept_from (old, ground (arith, differs, eq_iff u s, eq_iff v t)))))
          (λ (starts, ends, eq). from (inr (cc (starts, ends, eq)))),
    )

abbrev pub attributes_of : Lists → Text → Option NodeData
attributes_of g v = if contains v g.nodes then lookup v g.attributes else none

abbrev pub with_node : Text → NodeData → Lists → Lists
with_node n d g = record g { nodes = add n g.nodes; attributes = put n d g.attributes }

pub attributes_of-with_node :
    (n : Text) (d : NodeData) (g : Lists) (v : Text)
    → attributes_of (with_node n d g) v ≡ (if n == v then some d else attributes_of g v)
attributes_of-with_node n d g v = ground (
  arith,
  contains_iff v (add n g.nodes),
  contains_iff v g.nodes,
  mem-add v n g.nodes,
  lookup-put n v d g.attributes,
  eq_iff n v,
)

pub add-known : (s : Text) (nodes : List Text) → contains s nodes ≡ true → add s nodes ≡ nodes
unfolding add
add-known s nodes h = rw h refl

pub mem-add_two :
    (s t : Text) (nodes : List Text) (v : Text)
    → Memᴰ v (add t (add s nodes)) ↔ (Memᴰ v nodes ⊎ ((v ≡ s) ⊎ (v ≡ t)))
mem-add_two s t nodes v = ground (arith, mem-add v t (add s nodes), mem-add v s nodes)

abbrev pub out_of : Lists → Text → List (Text × EdgeData)
out_of g u = map (λ (e : Text × Text × EdgeData). (e.1, e.2)) (keep_if (λ e. e.0 == u) g.edges)

pub mem-out_of :
    (g : Lists) (u v : Text) (d : EdgeData) → Memᴰ (v, d) (out_of g u) ↔ Memᴰ (u, v, d) g.edges
mem-out_of g u v d =
    let leaves = λ (e : Text × Text × EdgeData). e.0 == u in
    let (to, from) =
      mem-map (λ (e : Text × Text × EdgeData). (e.1, e.2)) (v, d) (keep_if leaves g.edges) in
    (
      λ m.
          let (e, kept, eq) = to m in
          let (in_edges, starts) = (mem-keep_if leaves e g.edges).0 kept in
          Memᴰ.cast (cc (eq, (eq_iff e.0 u).0 starts)) in_edges,
      λ m. from ((u, v, d), (mem-keep_if leaves (u, v, d) g.edges).1 (m, eq_refl u), refl),
    )

pub length-out_of-le : (g : Lists) (u : Text) → length (out_of g u) ≤ length g.edges
length-out_of-le g u =
    let leaves = λ (e : Text × Text × EdgeData). e.0 == u in
    let mapped = length-map {B = Text × EdgeData} (λ e. (e.1, e.2)) (keep_if leaves g.edges) in
    let fewer = length-keep_if-le leaves g.edges in omega (arith, mapped, fewer)

abbrev pub networkx : Networkx Lists
networkx = record {
  empty = record { nodes = []; edges = []; attributes = [] };
  has_node = λ g n. contains n g.nodes;
  add_node = with_node;
  add_edge = λ s t d g. record g {
    nodes = add t (add s g.nodes);
    edges = keep_if (others s t) g.edges ++ (s, t, d) ∷ [];
  };
  nodes = λ g. g.nodes;
  edges = λ g. g.edges;
  node_data = attributes_of;
  out_edges = out_of;
  number_of_edges = λ g. length g.edges;
  nodes-empty = refl;
  edges-empty = refl;
  has_node_iff = λ g n. contains_iff n g.nodes;
  mem_nodes-add_node = λ n d g v. mem-add v n g.nodes;
  mem_nodes-add_edge = λ s t d g. mem-add_two s t g.nodes;
  mem_edges-add_node = λ n d g e. (λ m. m, λ m. m);
  mem_edges-add_edge = λ s t edge_type g. mem-others s t (active_edge edge_type) g.edges;
  node_data_absent = λ g v h. rw h refl;
  node_data-add_node = attributes_of-with_node;
  node_data-add_edge = λ s t d g v h h'.
      let first = add-known s g.nodes h in
      let second = add-known t g.nodes h' in rw (first, second) refl;
  mem_out_edges = mem-out_of;
  length-out_edges-le = length-out_of-le;
}

module _ {W E R : Type 0} where
  -- At most `n` tries, with no wait between them.
  abbrev pub tries : (E → Bool) → ℕ → (W → W × Result E R) → W → W × Result E R
  tries retry_if zero action w = action w
  tries retry_if (suc zero) action w = action w
  tries retry_if (suc (suc n)) action w =
      let rest = tries retry_if (suc n) action (action w).0 in
      if is_retryable retry_if (action w).1 then rest else action w

  pub settles :
      (retry_if : E → Bool) (n : ℕ) (action : W → W × Result E R) (w : W)
      → is_retryable retry_if (action w).1 ≡ false
      → tries retry_if (suc n) action w ≡ action w
  settles retry_if zero action w h = refl
  settles retry_if (suc n) action w h = rw h refl

  pub tries_again :
      (retry_if : E → Bool) (n : ℕ) (action : W → W × Result E R) (w : W)
      → is_retryable retry_if (action w).1 ≡ true
      → tries retry_if (suc (suc n)) action w ≡ tries retry_if (suc n) action (action w).0
  tries_again retry_if n action w h = rw h refl

  abbrev pub tenacity : Tenacity W E R
  tenacity = record {
    retry = tries;
    wait = λ w. w;
    settles = settles;
    gives_up = λ retry_if action w. refl;
    tries_again = tries_again;
  }
