-- ===== src/Traversal/Notes.antt =====
-- src/p2_satellite/traversal.py: what the two tests on `node_type` add to each output.
use p2_ai_knowledge_graph_fo.Base.{
  ◌≡◌, ◌⊎◌, inl, ⊎_elim, ◌↔◌, List, Option, none, some, Text, contains, mem-add, Memᴰ, arith,
  list_eq, nat_eq, eq_iff, add, contains_iff,
}
use p2_ai_knowledge_graph_fo.Schema.{node_regulation, node_obligation, node_control_type}
use p2_ai_knowledge_graph_fo.Traversal.{
  NodeData, Walking, add_key, add_path, add_regulation, note_target,
}

abbrev pub node : Text → Text → NodeData
node t k = record { node_type = t; node_key = k }

-- The node data are those of an obligation or of a control type.
abbrev pub IsTerminal : Option NodeData → Type 0
IsTerminal none = ⊥
IsTerminal (some d) = (d.node_type ≡ node_obligation) ⊎ (d.node_type ≡ node_control_type)

-- The node data are those of a regulation.
abbrev pub IsRegulation : Option NodeData → Type 0
IsRegulation none = ⊥
IsRegulation (some d) = d.node_type ≡ node_regulation

module _ (k : Text) (v : Text) (p : List Text) (s : Walking) where
  obligation_at :
      (t key : Text)
      → Memᴰ k (note_target (some (node t key)) v p s).obligation_keys
        ↔ (Memᴰ k s.obligation_keys ⊎ (some (node t key) ≡ some (node node_obligation k)))
  unfolding note_target add_key add_path add_regulation contains
  obligation_at t key = ground (arith, mem-add k key s.obligation_keys, eq_iff t node_obligation)

  pub obligation_noted :
      (o : Option NodeData)
      → Memᴰ k (note_target o v p s).obligation_keys
        ↔ (Memᴰ k s.obligation_keys ⊎ (o ≡ some (node node_obligation k)))
  unfolding note_target
  obligation_noted none = (inl, ⊎_elim (λ m. m) (λ e. cc))
  obligation_noted (some d) = obligation_at d.node_type d.node_key

  control_at :
      (t key : Text)
      → Memᴰ k (note_target (some (node t key)) v p s).control_keys
        ↔ (Memᴰ k s.control_keys ⊎ (some (node t key) ≡ some (node node_control_type k)))
  unfolding note_target add_key add_path add_regulation contains
  control_at t key =
      ground
        (arith, mem-add k key s.control_keys, eq_iff t node_obligation, eq_iff t node_control_type)

  pub control_noted :
      (o : Option NodeData)
      → Memᴰ k (note_target o v p s).control_keys
        ↔ (Memᴰ k s.control_keys ⊎ (o ≡ some (node node_control_type k)))
  unfolding note_target
  control_noted none = (inl, ⊎_elim (λ m. m) (λ e. cc))
  control_noted (some d) = control_at d.node_type d.node_key

  regulation_at :
      (t key : Text)
      → Memᴰ k (note_target (some (node t key)) v p s).visited_regulation_ids
        ↔ (Memᴰ k s.visited_regulation_ids ⊎ (k ≡ v) × (t ≡ node_regulation))
  unfolding note_target add_key add_path add_regulation contains
  regulation_at t key =
      ground (arith, mem-add k v s.visited_regulation_ids, eq_iff t node_regulation)

module _ (v : Text) (p : List Text) (s : Walking) where
  pub IsRegulation-noted :
      (r : Text) (o : Option NodeData)
      → Memᴰ r (note_target o v p s).visited_regulation_ids
        ↔ (Memᴰ r s.visited_regulation_ids ⊎ (r ≡ v) × IsRegulation o)
  unfolding note_target
  IsRegulation-noted r none = (inl, ⊎_elim (λ m. m) (λ e. absurd e.1))
  IsRegulation-noted r (some d) = regulation_at r v p s d.node_type d.node_key

  path_at :
      (q : List Text) (t key : Text)
      → Memᴰ q (note_target (some (node t key)) v p s).seen_terminal_paths ↔ (
          Memᴰ q s.seen_terminal_paths
          ⊎ (q ≡ p) × ((t ≡ node_obligation) ⊎ (t ≡ node_control_type)))
  unfolding note_target add_key add_path add_regulation contains
  path_at q t key = ground (
    arith,
    mem-add q p s.seen_terminal_paths,
    contains_iff p s.seen_terminal_paths,
    eq_iff t node_obligation,
    eq_iff t node_control_type,
  )

  pub path_noted :
      (q : List Text) (o : Option NodeData)
      → Memᴰ q (note_target o v p s).seen_terminal_paths
        ↔ (Memᴰ q s.seen_terminal_paths ⊎ (q ≡ p) × IsTerminal o)
  unfolding note_target
  path_noted q none = (inl, ⊎_elim (λ m. m) (λ e. absurd e.1))
  path_noted q (some d) = path_at q d.node_type d.node_key

-- `terminal_paths` and `seen_terminal_paths` hold the same paths in the same order.
abbrev pub PathsAgree : Walking → Type 0
PathsAgree s = s.terminal_paths ≡ s.seen_terminal_paths

pub note_target-PathsAgree :
    (o : Option NodeData) (v : Text) (p : List Text) (s : Walking)
    → PathsAgree s
    → PathsAgree (note_target o v p s)
unfolding note_target add_key add_path add_regulation add
note_target-PathsAgree none v p s h = h
note_target-PathsAgree (some d) v p s h = ground arith
