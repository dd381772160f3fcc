-- ===== src/Tests/Jobs.antt =====
-- The theorems about src/p2_satellite/scheduler.py and the job of an event, at concrete inputs.
use Prim.Native.Nat.{max}
use p2_ai_knowledge_graph_fo.Base.{
  ℕ, Text, ◌↔◌, ◌≤◌, ◌≡◌, true, List, [], ◌∷◌, none, some, codes, Memᴰ, length, list_eq, nat_eq,
}
use p2_ai_knowledge_graph_fo.Scheduler.{chunks, process_ai_system_changed, run_safety_net_poll}
use p2_ai_knowledge_graph_fo.Scheduler.Chunks.{flatten, chunks-exact}
use p2_ai_knowledge_graph_fo.Scheduler.Event.{Outcome, process_ai_system_changed-Outcome}
use p2_ai_knowledge_graph_fo.Concurrency.{Locks}
use p2_ai_knowledge_graph_fo.Scheduler.Release.{IsHeld, run_safety_net_poll_releases}
use p2_ai_knowledge_graph_fo.Schema.{node_ai_system}
use p2_ai_knowledge_graph_fo.Tests.Library.{Lists, networkx}
use p2_ai_knowledge_graph_fo.Tests.Data.{settings, one_edge, system}

abbrev three : List ℕ
three = 1 ∷ 2 ∷ 3 ∷ []

chunks-exact_example :
    (flatten (chunks 2 three) ≡ three)
    × ((c : List ℕ) → Memᴰ c (chunks 2 three) → length c ≤ max 1 2)
chunks-exact_example = chunks-exact 2 three

abbrev one_node : Lists
one_node = record {
  nodes = system ∷ [];
  edges = [];
  attributes = (system, record { node_type = node_ai_system; node_key = codes "1" }) ∷ [];
}

process_ai_system_changed-Outcome_example :
    Outcome networkx settings
      (codes "1")
      (some one_node)
      []
      (process_ai_system_changed networkx settings (some one_node) (codes "1") [])
process_ai_system_changed-Outcome_example =
    process_ai_system_changed-Outcome networkx settings (codes "1") (some one_node) []

abbrev another_lock : Locks
another_lock = (codes "2", true) ∷ []

run_safety_net_poll_releases_example :
    (after : Locks) × (processed : ℕ) × (skipped : ℕ) × (run_safety_net_poll settings 2
        (λ ds. none)
        one_edge
        (system ∷ [])
        another_lock
      ≡ some (after, processed, skipped))
    × ((i : Text) → IsHeld after i ↔ IsHeld another_lock i)
run_safety_net_poll_releases_example =
    run_safety_net_poll_releases settings 2 (λ ds. none) one_edge (system ∷ []) another_lock
