-- ===== src/Reference.antt =====
-- core-side-patch/reference_traversal_cte.py: core's own traversal, the pure-Python path that runs
-- on every dialect but Postgres. (What Postgres computes from the SQL text is not modelled.)
pub mod Step
pub mod Loop
pub mod Search
pub mod Correct
use p2_ai_knowledge_graph_fo.Base.{
  ℕ, zero, suc, ◌+◌, ◌^◌, Bool, true, false, ◌&&◌, List, [], ◌∷◌, ◌++◌, map, foldl, Option, none,
  some, Text, contains, add, sorted, text_le, keep_if, length, leb, if◌then◌else◌, ◌==◌, list_eq,
  nat_eq,
}
use mathlib.Core.Option
use p2_ai_knowledge_graph_fo.Schema.{node_obligation, node_control_type}
use p2_ai_knowledge_graph_fo.Worklist.{run}

-- A row of `nodes`: id, node type, node key.
pub record NodeEntry : Type 0 where
  pub id : ℕ
  pub node_type : Text
  pub node_key : Text

-- A row of `edges`: source, target, edge type, active.
pub record EdgeEntry : Type 0 where
  pub source_id : ℕ
  pub target_id : ℕ
  pub edge_type : Text
  pub is_active : Bool

-- `node_lookup.get(i)`: a later row with the same id replaces an earlier one.
unfoldable pub node_lookup : List NodeEntry → ℕ → Option NodeEntry
node_lookup [] i = none
node_lookup (n ∷ ns) i = elim (node_lookup ns i) [
  | some later ↦ some later
  | none ↦ if n.id == i then some n else none
]

-- `outgoing.get(i, [])`
unfoldable pub outgoing : List EdgeEntry → ℕ → List ℕ
outgoing edges i = map (λ e. e.target_id) (keep_if (λ e. e.is_active && (e.source_id == i)) edges)

-- An entry of `stack`; `path` holds the ancestors of the node, and not the node.
pub record Frame : Type 0 where
  pub current_id : ℕ
  pub path : List ℕ
  pub depth : ℕ

pub record Deriving : Type 0 where
  pub derived_obligations : List Text
  pub derived_controls : List Text
  pub stack : List Frame

-- The two tests on the node that an edge leads to.
unfoldable pub note_node : Option NodeEntry → Deriving → Deriving
note_node none s = s
note_node (some n) s =
    if n.node_type == node_obligation
    then record s { derived_obligations = add n.node_key s.derived_obligations }
    else if n.node_type == node_control_type
    then record s { derived_controls = add n.node_key s.derived_controls }
    else s

abbrev pub initial : ℕ → Deriving
initial ai_system_node_id = record {
  derived_obligations = [];
  derived_controls = [];
  stack = record { current_id = ai_system_node_id; path = []; depth = 0 } ∷ [];
}

module _ (nodes : List NodeEntry) (edges : List EdgeEntry) (max_traversal_depth : ℕ) where
  -- The body of the `for` loop.
  unfoldable pub follow : Frame → Deriving → ℕ → Deriving
  follow f s target_id =
      if contains target_id f.path
      then s
      else let s' = note_node (node_lookup nodes target_id) s in
        record s' {
          stack =
              record {
                current_id = target_id;
                path = f.path ++ f.current_id ∷ [];
                depth = f.depth + 1;
              }
              ∷ s'.stack;
        }

  -- The body of the `while` loop, after `f` was popped.
  unfoldable pub expand : Deriving → Frame → List Frame → Deriving
  expand s f rest =
      if leb max_traversal_depth f.depth
      then record s { stack = rest }
      else foldl (follow f) (record s { stack = rest }) (outgoing edges f.current_id)

  unfoldable pub fuel : ℕ
  fuel = suc (length edges) ^ max_traversal_depth

  unfoldable pub walk : ℕ → Option Deriving
  walk ai_system_node_id = run (λ s. s.stack) expand fuel (initial ai_system_node_id)

pub record ReferenceDerived : Type 0 where
  pub derived_obligations : List Text
  pub derived_controls : List Text

unfoldable pub collected : Deriving → ReferenceDerived
collected s = record {
  derived_obligations = sorted text_le s.derived_obligations;
  derived_controls = sorted text_le s.derived_controls;
}

-- `_derive_obligations_pure_python`; `none` would mean that the fuel ran out.
unfoldable pub derive_obligations_pure_python :
    List NodeEntry → List EdgeEntry → ℕ → ℕ → Option ReferenceDerived
derive_obligations_pure_python nodes edges ai_system_node_id max_traversal_depth =
    Option.map collected (walk nodes edges max_traversal_depth ai_system_node_id)
