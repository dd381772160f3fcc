-- ===== src/Traversal.antt =====
-- src/p2_satellite/traversal.py: the depth-first walk that derives obligations and controls.
-- The graph is networkx's `DiGraph`, taken through what the walk reads of it.

pub mod Step
pub mod Notes
pub mod Loop
pub mod Search
pub mod Correct
pub mod Reports
pub mod Coverage
use p2_ai_knowledge_graph_fo.Base.{
  ℕ, suc, ◌+◌, ◌^◌, ◌≤◌, Bool, true, false, not, ◌&&◌, List, [], ◌∷◌, ◌++◌, map, foldl, Option,
  none, some, Text, contains, add, sorted, text_le, any, keep_if, length, ltb, if◌then◌else◌, ◌==◌,
  list_eq, nat_eq,
}
use mathlib.Core.Option
use p2_ai_knowledge_graph_fo.Schema.{
  split_node_id, node_regulation, node_obligation, node_control_type, terminal_node_types,
  edge_regulation_requires,
}
use p2_ai_knowledge_graph_fo.Worklist.{run}

-- The data of an edge: `get` finds `none` for a key that is missing.
pub record EdgeData : Type 0 where
  pub edge_type : Option Text
  pub is_active : Option Bool

-- `build_graph` gives a node its type and its key together, or networkx makes it with neither.
pub record NodeData : Type 0 where
  pub node_type : Text
  pub node_key : Text

-- What the walk reads of a networkx graph: `n in graph`, `graph.nodes[n]`, and
-- `graph.out_edges(n, data=True)`, whose length is at most `graph.number_of_edges()`.
pub record DiGraph : Type 0 where
  pub has_node : Text → Bool
  pub node_data : Text → Option NodeData
  pub out_edges : Text → List (Text × EdgeData)
  pub number_of_edges : ℕ
  pub out_edges_le : (n : Text) → length (out_edges n) ≤ number_of_edges

unfoldable pub edge_is_active : EdgeData → Bool
edge_is_active e = elim e.is_active [ none ↦ true | some b ↦ b ]

-- An entry of `stack`.
pub record Frame : Type 0 where
  pub current_node : Text
  pub path : List Text
  pub depth : ℕ

-- The local variables of `_traverse`; the top of `stack` is its first element.
pub record Walking : Type 0 where
  pub obligation_keys : List Text
  pub control_keys : List Text
  pub terminal_paths : List (List Text)
  pub seen_terminal_paths : List (List Text)
  pub visited_regulation_ids : List Text
  pub stack : List Frame

-- `obligation_keys.add` or `control_keys.add`, by the type of the node
unfoldable pub add_key : NodeData → Walking → Walking
add_key d s =
    if d.node_type == node_obligation
    then record s { obligation_keys = add d.node_key s.obligation_keys }
    else if d.node_type == node_control_type
    then record s { control_keys = add d.node_key s.control_keys }
    else s

unfoldable pub add_path : List Text → Walking → Walking
add_path new_path s = if contains new_path s.seen_terminal_paths then s else record s {
  seen_terminal_paths = add new_path s.seen_terminal_paths;
  terminal_paths = s.terminal_paths ++ new_path ∷ [];
}

unfoldable pub add_regulation : NodeData → Text → Walking → Walking
add_regulation d target s =
    if d.node_type == node_regulation
    then record s { visited_regulation_ids = add target s.visited_regulation_ids }
    else s

-- The two tests on `node_type`. A node without attributes passes neither.
unfoldable pub note_target : Option NodeData → Text → List Text → Walking → Walking
note_target none target new_path s = s
note_target (some d) target new_path s =
    let s' = add_regulation d target s in
    if contains d.node_type terminal_node_types then add_path new_path (add_key d s') else s'

-- The variables before the loop: one frame, of the system itself.
abbrev pub initial : Text → Walking
initial ai_system_node_id = record {
  obligation_keys = [];
  control_keys = [];
  terminal_paths = [];
  seen_terminal_paths = [];
  visited_regulation_ids = [];
  stack =
      record { current_node = ai_system_node_id; path = ai_system_node_id ∷ []; depth = 0 } ∷ [];
}

module _ (g : DiGraph) (max_traversal_depth : ℕ) where
  -- The body of the `for` loop.
  unfoldable pub follow_edge : Frame → Walking → Text × EdgeData → Walking
  follow_edge f s (target, edge_data) =
      if not (edge_is_active edge_data)
      then s
      else if contains target f.path
      then s
      else let new_depth = f.depth + 1 in
        let new_path = f.path ++ target ∷ [] in
        let s' = note_target (g.node_data target) target new_path s in
        if ltb new_depth max_traversal_depth
        then record s' {
          stack = record { current_node = target; path = new_path; depth = new_depth } ∷ s'.stack;
        }
        else s'

  -- The body of the `while` loop, after `f` was popped.
  unfoldable pub expand : Walking → Frame → List Frame → Walking
  expand s f rest = foldl (follow_edge f) (record s { stack = rest }) (g.out_edges f.current_node)

  -- Enough rounds for the loop: see `Loop`.
  unfoldable pub fuel : ℕ
  fuel = suc g.number_of_edges ^ max_traversal_depth

  unfoldable pub walk : Text → Option Walking
  walk ai_system_node_id = run (λ s. s.stack) expand fuel (initial ai_system_node_id)

-- Whether some active edge out of the regulation is of type `regulation_requires`.
unfoldable pub is_requires_edge : EdgeData → Bool
is_requires_edge e =
    edge_is_active e && elim e.edge_type [ none ↦ false | some t ↦ t == edge_regulation_requires ]

unfoldable pub has_requires_edge : DiGraph → Text → Bool
has_requires_edge g reg_node_id = any (λ e. is_requires_edge e.1) (g.out_edges reg_node_id)

-- The last loop of `_traverse`.
unfoldable pub incomplete_coverage : DiGraph → List Text → List (Text × Text)
incomplete_coverage g visited_regulation_ids =
    map (λ r. (node_regulation, (split_node_id r).1))
      (keep_if (λ r. not (has_requires_edge g r)) (sorted text_le visited_regulation_ids))

pub record Derivation : Type 0 where
  pub ai_system_id : Text
  pub derived_obligations : List Text
  pub derived_controls : List Text
  pub graph_path : List (List Text)
  pub methodology_version : Text
  pub incomplete_coverage : List (Text × Text)

-- The two settings that the module reads.
pub record Settings : Type 0 where
  pub max_traversal_depth : ℕ
  pub methodology_version : Text

unfoldable pub report : DiGraph → Text → Text → Walking → Derivation
report g methodology_version ai_system_key s = record {
  ai_system_id = ai_system_key;
  derived_obligations = sorted text_le s.obligation_keys;
  derived_controls = sorted text_le s.control_keys;
  graph_path = s.terminal_paths;
  methodology_version = methodology_version;
  incomplete_coverage = incomplete_coverage g s.visited_regulation_ids;
}

unfoldable pub nothing_reachable : Text → Text → Derivation
nothing_reachable methodology_version ai_system_key = record {
  ai_system_id = ai_system_key;
  derived_obligations = [];
  derived_controls = [];
  graph_path = [];
  methodology_version = methodology_version;
  incomplete_coverage = [];
}

-- `_traverse`; `none` would mean that the fuel ran out.
unfoldable pub traverse : DiGraph → Text → Text → Text → ℕ → Option Derivation
traverse g methodology_version ai_system_node_id ai_system_key max_traversal_depth =
    if g.has_node ai_system_node_id
    then Option.map (report g methodology_version ai_system_key)
        (walk g max_traversal_depth ai_system_node_id)
    else some (nothing_reachable methodology_version ai_system_key)

unfoldable pub derive_obligations : Settings → DiGraph → Text → Option ℕ → Option Derivation
derive_obligations settings g ai_system_node_id max_traversal_depth =
    let depth : ℕ = elim max_traversal_depth [ none ↦ settings.max_traversal_depth | some d ↦ d ] in
    traverse g settings.methodology_version ai_system_node_id (split_node_id ai_system_node_id).1
      depth
