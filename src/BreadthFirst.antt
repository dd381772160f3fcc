-- ===== src/BreadthFirst.antt =====
-- core-side-patch/graph_query.py: the `while queue:` loop of get_subgraph and find_upstream_ai_systems,
-- a breadth-first search by node ids. The two differ in the edges that they follow and in what they
-- note besides the nodes seen.
pub mod Ends
pub mod Visit
pub mod Follow
pub mod Rounds
pub mod Exact
use p2_ai_knowledge_graph_fo.Base.{
  ℕ, suc, ◌+◌, Bool, true, false, List, [], ◌∷◌, ◌++◌, foldl, map, length, Option, contains, leb,
  if◌then◌else◌, nat_eq,
}
use p2_ai_knowledge_graph_fo.Worklist.{run}

-- An entry of `queue`.
pub record Entry : Type 0 where
  pub current_id : ℕ
  pub depth : ℕ

-- The local variables of the loop; `noted` is what the search keeps besides the ids seen.
pub record Searching (X : Type 0) : Type 0 where
  pub seen : List ℕ
  pub noted : X
  pub queue : List Entry

module _ {E X : Type 0} (edges_of : ℕ → List E) (far_end : E → ℕ) (note_edge : E → X → X)
    (note_node : ℕ → X → X) (max_depth : ℕ) where
  -- `if id not in seen:` and its body
  unfoldable pub visit : ℕ → Searching X → ℕ → Searching X
  visit depth s id = if contains id s.seen then s else record {
    seen = s.seen ++ id ∷ [];
    noted = note_node id s.noted;
    queue = s.queue ++ record { current_id = id; depth = depth + 1 } ∷ [];
  }

  -- The body of the `for` loop.
  unfoldable pub follow_edge : ℕ → Searching X → E → Searching X
  follow_edge depth s edge =
      visit depth (record s { noted = note_edge edge s.noted }) (far_end edge)

  -- The body of the `while` loop, after `f` was popped.
  unfoldable pub expand : Searching X → Entry → List Entry → Searching X
  expand s f rest =
      let popped : Searching X = record s { queue = rest } in
      if leb max_depth f.depth
      then popped
      else foldl (follow_edge f.depth) popped (edges_of f.current_id)

  -- The variables before the loop.
  abbrev pub initial : ℕ → X → Searching X
  initial start nothing = record {
    seen = start ∷ [];
    noted = nothing;
    queue = record { current_id = start; depth = 0 } ∷ [];
  }

  -- One round for the start and one for each edge is enough: see `Ends`.
  unfoldable pub search : ℕ → ℕ → X → Option (Searching X)
  search number_of_edges start nothing =
      run (λ s. s.queue) expand (suc number_of_edges) (initial start nothing)
