-- ===== src/Scheduler.antt =====
-- src/p2_satellite/scheduler.py and `process_ai_system_changed` of src/p2_satellite/event_listener.py:
-- the sweep over all systems, and the job of one event. What core answers is a parameter.
pub mod Chunks
pub mod Event
pub mod Release
use p2_ai_knowledge_graph_fo.Base.{
  ℕ, zero, suc, ◌+◌, Bool, true, false, List, [], ◌∷◌, ◌++◌, Option, none, some, Text, keep_if,
  length, take, drop, if◌then◌else◌, ◌>>=◌, ◌==◌, list_eq, nat_eq,
}
use Prim.Native.Nat.{max}
use p2_ai_knowledge_graph_fo.Schema.{node_id, split_node_id, node_ai_system}
use p2_ai_knowledge_graph_fo.Traversal.{DiGraph, Derivation, Settings, derive_obligations}
use p2_ai_knowledge_graph_fo.GraphBuilder.{Networkx, walked}
use p2_ai_knowledge_graph_fo.GraphBuilder.Structure.{Structure, serialize_graph_structure}
use p2_ai_knowledge_graph_fo.Concurrency.{Locks, try_acquire, exit_processing}

-- `[xs[i : i + size] for i in range(0, len(xs), size)]`; each round takes one or more elements.
unfoldable pub chunks_in : {A : Type 0} → ℕ → ℕ → List A → List (List A)
chunks_in zero size xs = []
chunks_in (suc fuel) size [] = []
chunks_in (suc fuel) size (x ∷ xs) = take size (x ∷ xs) ∷ chunks_in fuel size (drop size (x ∷ xs))

unfoldable pub chunks : {A : Type 0} → ℕ → List A → List (List A)
chunks ingest_batch_chunk_size xs = chunks_in (length xs) (max 1 ingest_batch_chunk_size) xs

-- The variables of the sweep. `held` is the exit stack, the last lock first.
pub record Sweep : Type 0 where
  pub locks : Locks
  pub held : List Text
  pub derivations : List Derivation
  pub skipped : ℕ

unfoldable pub sweep_one : Settings → DiGraph → Sweep → Text → Option Sweep
sweep_one settings g s node_id =
    let ai_system_key = (split_node_id node_id).1 in
    let (locks, acquired) = try_acquire s.locks ai_system_key in
    if acquired
    then (derive_obligations settings g node_id none >>= λ d. some (record s {
      locks = locks;
      held = ai_system_key ∷ s.held;
      derivations = s.derivations ++ d ∷ [];
    }))
    else some (record s { locks = locks; skipped = s.skipped + 1 })

unfoldable pub sweep : Settings → DiGraph → Sweep → List Text → Option Sweep
sweep settings g s [] = some s
sweep settings g s (node_id ∷ node_ids) =
    sweep_one settings g s node_id >>= λ s'. sweep settings g s' node_ids

unfoldable pub release_all : List Text → Locks → Locks
release_all [] locks = locks
release_all (i ∷ held) locks = release_all held (exit_processing locks i true)

-- `push_derivations_batch`: whether each item was accepted, or `none` if the call raises.
abbrev pub PushBatch : Type 0
PushBatch = List Derivation → Option (List Bool)

unfoldable pub accepted_in : Option (List Bool) → ℕ
accepted_in none = 0
accepted_in (some results) = length (keep_if (λ ok. ok) results)

-- Every chunk is pushed, also after one that failed.
unfoldable pub push_chunks : PushBatch → List (List Derivation) → ℕ
push_chunks push [] = 0
push_chunks push (chunk ∷ rest) = accepted_in (push chunk) + push_chunks push rest

-- The nodes of type `ai_system`, in the order of the graph.
unfoldable pub is_ai_system : DiGraph → Text → Bool
is_ai_system g node_id = elim (g.node_data node_id) [
  | none ↦ false
  | some d ↦ d.node_type == node_ai_system
]

-- `_run_safety_net_poll` on a graph that was fetched: the locks, and the numbers of systems processed
-- and skipped. The chunks are pushed while the locks are held, which the exit stack frees after them. Whether
-- the push of the structure before the sweep succeeds changes nothing else; the pauses between chunks are
-- left out.
unfoldable pub run_safety_net_poll :
    Settings → ℕ → PushBatch → DiGraph → List Text → Locks → Option (Locks × ℕ × ℕ)
run_safety_net_poll settings ingest_batch_chunk_size push g graph_nodes locks = do
  s ←
      sweep settings g (record { locks = locks; held = []; derivations = []; skipped = 0 })
        (keep_if (is_ai_system g) graph_nodes)
  some (
    release_all s.held s.locks,
    push_chunks push (chunks ingest_batch_chunk_size s.derivations),
    s.skipped,
  )

-- What the job of an event does to core: the pushes it attempts, in order.
pub data Push : Type 0 where
  push_graph_structure : Structure → Push
  push_derivation : Derivation → Push

unfoldable pub push_derived : Structure → Option Derivation → List Push
push_derived s none = push_graph_structure s ∷ []
push_derived s (some d) = push_graph_structure s ∷ push_derivation d ∷ []

-- The job when the lock was tried: `none` if the id of the node cannot be made, or if the graph cannot be
-- fetched, which raises. A push of the structure that fails is swallowed, so the derivation is pushed after it in
-- any case.
unfoldable pub derive_and_push :
    {G : Type 0} → Networkx G → Settings → Option Text → Option G → List Push
derive_and_push nx settings none fetched = []
derive_and_push nx settings (some target_node_id) none = []
derive_and_push nx settings (some target_node_id) (some graph) =
    push_derived (serialize_graph_structure nx graph)
      (derive_obligations settings (walked nx graph) target_node_id none)

-- `process_ai_system_changed`: the locks while the job runs, whether it runs, the pushes it attempts, and
-- the locks when it is over.
pub record EventJob : Type 0 where
  pub locks_inside : Locks
  pub acquired : Bool
  pub pushes : List Push
  pub locks_after : Locks

unfoldable pub process_ai_system_changed :
    {G : Type 0} → Networkx G → Settings → Option G → Text → Locks → EventJob
process_ai_system_changed nx settings fetched ai_system_id locks =
    let (inside, acquired) = try_acquire locks ai_system_id in
    record {
      locks_inside = inside;
      acquired = acquired;
      pushes =
          if acquired
          then derive_and_push nx settings (node_id node_ai_system ai_system_id) fetched
          else [];
      locks_after = exit_processing inside ai_system_id acquired;
    }
