-- ===== src/Tests/Data.antt =====
-- A graph of one system and one obligation, as src/p2_satellite/graph_builder.py would build it, and
-- core's rows for it.
use p2_ai_knowledge_graph_fo.Base.{
  ℕ, ◌≤◌, ◌≡◌, refl, ap, inl, inr, true, List, [], ◌∷◌, none, some, Text, codes, if◌then◌else◌,
  ◌==◌, list_eq, list_beq, nat_eq, Bool-cases, Memᴰ, length, arith, ◌↔◌,
}
use mathlib.Core.List.Memᴰ
use p2_ai_knowledge_graph_fo.Schema.{node_ai_system, node_obligation}
use p2_ai_knowledge_graph_fo.Traversal.{DiGraph, EdgeData, Settings, edge_is_active}
use p2_ai_knowledge_graph_fo.Traversal.Step.{ActiveEdge, HasType}
use p2_ai_knowledge_graph_fo.Reference.{NodeEntry, EdgeEntry, node_lookup, outgoing}
use p2_ai_knowledge_graph_fo.Reference.Step.{CoreEdge, Names}
use p2_ai_knowledge_graph_fo.Agreement.{Mirrors}

abbrev pub system : Text
system = codes "ai_system:1"

abbrev pub duty : Text
duty = codes "obligation:o"

abbrev pub settings : Settings
settings = record { max_traversal_depth = 6; methodology_version = codes "p2-v1" }

abbrev pub plain_edge : EdgeData
plain_edge = record { edge_type = none; is_active = none }

-- The edges out of a node.
abbrev pub edges_of : Text → List (Text × EdgeData)
edges_of u = if u == system then (duty, plain_edge) ∷ [] else []

pub edges_of-le : (u : Text) → length (edges_of u) ≤ 1
edges_of-le u = ground arith

abbrev pub one_edge : DiGraph
one_edge = record {
  has_node = λ u. if u == system then true else u == duty;
  node_data = λ u.
      if u == system
      then some (record { node_type = node_ai_system; node_key = codes "1" })
      else if u == duty
      then some (record { node_type = node_obligation; node_key = codes "o" })
      else none;
  out_edges = edges_of;
  number_of_edges = 1;
  out_edges_le = edges_of-le;
}

abbrev pub rows : List NodeEntry
rows =
    record { id = 1; node_type = node_ai_system; node_key = codes "1" }
    ∷ record { id = 2; node_type = node_obligation; node_key = codes "o" }
    ∷ []

abbrev pub edge_rows : List EdgeEntry
edge_rows =
    record { source_id = 1; target_id = 2; edge_type = codes "system_uses"; is_active = true } ∷ []

-- The id of a node's row; 0 is no id.
abbrev pub row : Text → ℕ
row u = if u == system then 1 else if u == duty then 2 else 0

edge_to : (u v : Text) → ActiveEdge one_edge u v → CoreEdge edge_rows (row u) (row v)
unfolding outgoing list_beq
edge_to u v (d, m, act) = elim (Bool-cases (u == system)) [
  | inl h ↦
      let same = Memᴰ.eq_of_singleton (rw h at m) in
      rw h (Memᴰ.head (ap (λ (e : Text × EdgeData). row e.0) same))
  | inr h ↦ absurd (Memᴰ.not-nil (rw h at m))
]

edge_from :
    (u : Text) (y : ℕ)
    → CoreEdge edge_rows (row u) y
    → (v : Text) × (y ≡ row v) × ActiveEdge one_edge u v
unfolding outgoing edge_is_active list_beq
edge_from u y m = elim (Bool-cases (u == system)) [
  | inl h ↦ (duty, Memᴰ.eq_of_singleton (rw h at m), (plain_edge, rw h (Memᴰ.head refl), refl))
  | inr h ↦ elim (Bool-cases (u == duty)) [
    | inl h' ↦ absurd (Memᴰ.not-nil (rw (h, h') at m))
    | inr h' ↦ absurd (Memᴰ.not-nil (rw (h, h') at m))
  ]
]

same_data : (v t k : Text) → HasType one_edge t v k ↔ Names t k (node_lookup rows (row v))
unfolding node_lookup
same_data v t k = elim (Bool-cases (v == system)) [
  | inl h ↦ rw h (ground arith)
  | inr h ↦ elim (Bool-cases (v == duty)) [
    | inl h' ↦ rw (h, h') (ground arith)
    | inr h' ↦ rw (h, h') (ground arith)
  ]
]

pub one_edge-Mirrors : Mirrors one_edge rows edge_rows row
one_edge-Mirrors = record { edge_to = edge_to; edge_from = edge_from; same_data = same_data }
